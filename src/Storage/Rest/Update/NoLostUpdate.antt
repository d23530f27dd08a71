-- ===== src/Storage/Rest/Update/NoLostUpdate.antt =====
-- About what an update that succeeds was computed from.
use tilt_apiserver.Base.{
  ℕ, zero, suc, ◌+◌, ◌≡◌, sym, String, List, Option, none, some, Result, ok, Result-cases, inl, inr,
  arith, ◌∙◌,
}
use tilt_apiserver.Storage.Objects.{Machinery}
use tilt_apiserver.Storage.Version.{get_resource_version}
use tilt_apiserver.Storage.Tree.{VersionedData}
use tilt_apiserver.Storage.Registry.{Registry}
use tilt_apiserver.Storage.FileSystem.{FileSystem}
use tilt_apiserver.Storage.Spec.{Store, spec_write, spec_write_bytes}
use tilt_apiserver.Storage.Contract.{Implements}
use tilt_apiserver.Storage.Rest.{FilepathRest, Context, object_file_name, get}
use tilt_apiserver.Storage.Rest.Get.{get-IsReady}
use tilt_apiserver.Storage.Rest.Write.{Others}
use tilt_apiserver.Storage.Rest.TryUpdate.{Outcome}
use tilt_apiserver.Storage.Rest.Update.Attempts.{Keeps, attempt-keeps}
use tilt_apiserver.Storage.Rest.Update.{
  Attempt-cases, returned, attempt_input, attempt_update, update_loop, guaranteed_update,
}

-- The version of a file, which is 0 where there is none.
abbrev pub version_of : Option VersionedData → ℕ
version_of none = 0
version_of (some v) = v.version

-- A write succeeds only at the version that it names.
pub spec_write-current :
    (m : Machinery) (loc : List String) (obj out : m.Object) (version : ℕ) (s : Store)
    → (spec_write m loc obj version s).0 ≡ ok out
    → version_of (s.files loc) ≡ version
unfolding spec_write spec_write_bytes
spec_write-current m loc obj out version s h = ground arith

module _ (m : Machinery) (g : Registry m) (fs : FileSystem m) (f : FilepathRest)
    (c : Implements m fs) (ctx : Context) (name : String) (others : Others fs.State)
    (update : Option m.Object → fs.State → Result (m.Object × Outcome) × fs.State) where
  -- The state that the write of attempt `i` meets, if the attempt began in `s` with `input`.
  abbrev pub met : ℕ → Option m.Object → fs.State → fs.State
  met i input s = others.before_write i (update input (get m g fs f ctx name s).1).1

  abbrev pub stored_version : fs.State → ℕ
  stored_version s = version_of ((c.view s).files (c.location (object_file_name f ctx name)))

  -- The result `out` was written by an attempt whose input was read from storage, whose output was
  -- computed from that input, and which replaced exactly the version that the input had.
  pub record IsCommitted (out : m.Object) (outcome : Outcome) : Type 0 where
    pub attempt : ℕ
    pub start : fs.State
    pub input : Option m.Object
    pub output : m.Object
    pub read : attempt_input m g fs f (get m g fs f ctx name start).0 ≡ ok input
    pub computed : (update input (get m g fs f ctx name start).1).0 ≡ ok (output, outcome)
    pub current : get_resource_version m input ≡ ok (stored_version (met attempt input start))
    pub wrote :
        (fs.write
          (object_file_name f ctx name)
          output
          (stored_version (met attempt input start))
          (met attempt input start)).0
        ≡ ok out

  module _ (i : ℕ) (s : fs.State) (out : m.Object) (outcome : Outcome)
      (h : (attempt_update m g fs f ctx name others update i s).0
        ≡ returned (ok (out, outcome))) where
    attempt_parts :
        (input : Option m.Object) × (version : ℕ) × (output : m.Object) × (attempt_input m g fs f
            (get m g fs f ctx name s).0
          ≡ ok input)
        × (get_resource_version m input ≡ ok version)
        × ((update input (get m g fs f ctx name s).1).0 ≡ ok (output, outcome))
        × ((fs.write (object_file_name f ctx name) output version (met i input s)).0 ≡ ok out)
    unfolding attempt_update
    attempt_parts = elim (Result-cases (attempt_input m g fs f (get m g fs f ctx name s).0)) [
      | inr (e, p) ↦ absurd (ground (arith, p))
      | inl (input, p) ↦ elim (Result-cases (get_resource_version m input)) [
        | inr (e, q) ↦ absurd (ground (arith, p, q))
        | inl (version, q) ↦ elim (Result-cases (update input (get m g fs f ctx name s).1).0) [
          | inr (e, t) ↦ absurd (ground (arith, p, q, t))
          | inl ((output, outcome'), t) ↦
              (input, version, output, p, q, ground (arith, p, q, t), ground (arith, p, q, t))
        ]
      ]
    ]

  module _
      (ready_write : (n : ℕ) (s : fs.State)
        → c.IsReady (object_file_name f ctx name) s
        → c.IsReady (object_file_name f ctx name) (others.before_write n s))
      (ready_update : (input : Option m.Object) (s : fs.State)
        → c.IsReady (object_file_name f ctx name) s
        → c.IsReady (object_file_name f ctx name) (update input s).1) where
    attempt-IsCommitted :
        (i : ℕ) (s : fs.State) (out : m.Object) (outcome : Outcome)
        → c.IsReady (object_file_name f ctx name) s
        → (attempt_update m g fs f ctx name others update i s).0 ≡ returned (ok (out, outcome))
        → IsCommitted out outcome
    attempt-IsCommitted i s out outcome ready h =
        let (input, version, output, p, q, t, w) = attempt_parts i s out outcome h in
        let file = object_file_name f ctx name in
        let met_ready =
          ready_write i _ (ready_update input _ (get-IsReady m g fs f c ctx name s ready)) in
        let e =
          spec_write-current m (c.location file) output out version (c.view (met i input s))
            (sym (c.write_result file output version (met i input s) met_ready) ∙ w) in
        record {
          attempt = i;
          start = s;
          input = input;
          output = output;
          read = p;
          computed = t;
          current = rw e q;
          wrote = rw e w;
        }

    Keeps-IsReady : Keeps m g fs f ctx name others update (c.IsReady (object_file_name f ctx name))
    Keeps-IsReady = record {
      got = get-IsReady m g fs f c ctx name;
      updated = ready_update;
      met = ready_write;
      written = λ out version s h. c.write_ready (object_file_name f ctx name) out version s h;
    }

    -- Whatever the others do, an update that succeeds was computed from what it replaced.
    pub update_loop-IsCommitted :
        (left i : ℕ) (s : fs.State) (out : m.Object) (outcome : Outcome)
        → c.IsReady (object_file_name f ctx name) s
        → (update_loop m g fs f ctx name others update left i s).0 ≡ ok (out, outcome)
        → IsCommitted out outcome
    unfolding update_loop
    update_loop-IsCommitted zero i s out outcome ready h = absurd (ground arith)
    update_loop-IsCommitted (suc left) i s out outcome ready h =
        let round = attempt_update m g fs f ctx name others update i s in
        elim (Attempt-cases round.0) [
          | inl (r, e) ↦ attempt-IsCommitted i s out outcome ready (ground (arith, e))
          | inr e ↦
              update_loop-IsCommitted left (i + 1) round.1 out outcome
                (attempt-keeps m g fs f ctx name others update
                  (c.IsReady (object_file_name f ctx name)) Keeps-IsReady i s ready)
                (ground (arith, e))
        ]

    -- `guaranteedUpdate`, whatever the other users of the files do between its reads and writes, so
    -- long as a file can be put at the object's path: if it returns an object, then some attempt
    -- read its input from storage, or found none, computed an object from that input, and wrote it
    -- over the very version that the input had.
    pub guaranteed_update-IsCommitted :
        (s : fs.State) (out : m.Object) (outcome : Outcome)
        → c.IsReady (object_file_name f ctx name) s
        → (guaranteed_update m g fs f ctx name others update s).0 ≡ ok (out, outcome)
        → IsCommitted out outcome
    unfolding guaranteed_update
    guaranteed_update-IsCommitted s out outcome = update_loop-IsCommitted 100 0 s out outcome
