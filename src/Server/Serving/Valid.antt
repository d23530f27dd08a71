-- ===== src/Server/Serving/Valid.antt =====
-- Which options `Validate` accepts.
use tilt_apiserver.Base.{ℕ, ◌≡◌, ◌≤◌, ◌↔◌, refl, true, false, not, ◌&&◌, ◌||◌, [], arith}
use tilt_apiserver.Server.Serving.{
  Serving, Options, Port, port, negative, is_empty, is_some, validate,
}

-- What `Validate` accepts: a port from 0 to 65535, from 1 on if it is required, and at most one of
-- the certificate files and the generated certificate.
pub record IsValid {v : Serving} (s : Options v) : Type 0 where
  pub number : ℕ
  pub is_port : s.bind_port ≡ port number
  pub bounded : number ≤ 65535
  pub positive : s.required ≡ true → 1 ≤ number
  pub one_certificate :
      (not (is_empty s.cert_file) || not (is_empty s.key_file)) && is_some s.generated_cert ≡ false

module _ {v : Serving} (s : Options v) where
  validate-IsValid : (p : Port) → s.bind_port ≡ p → validate s ≡ [] → IsValid s
  unfolding validate
  validate-IsValid (port n) e h = record {
    number = n;
    is_port = e;
    bounded = ground (arith, e, h);
    positive = λ r. ground (arith, e, h, r);
    one_certificate = ground (arith, e, h);
  }
  validate-IsValid (negative n) e h = absurd (ground (arith, e, h))

  -- `Validate` finds nothing to complain of just where the port is from 0 to 65535, and from 1 on
  -- if it is required, and the options do not both name a certificate file and hold one.
  pub validate_iff : (validate s ≡ []) ↔ IsValid s
  unfolding validate
  validate_iff = (
    validate-IsValid s.bind_port refl,
    λ r. ground (arith, r.is_port, r.bounded, r.positive, r.one_certificate),
  )
