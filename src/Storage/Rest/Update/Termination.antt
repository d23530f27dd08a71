-- ===== src/Storage/Rest/Update/Termination.antt =====
-- About the end of the loop of `guaranteedUpdate`, where the other users leave it alone in time.
use mathlib.Core.Path.{subst}
use tilt_apiserver.Base.{
  ℕ, zero, suc, ◌+◌, ◌≡◌, ◌≢◌, ◌≤◌, ◌<◌, sym, ap, ◌∙◌, true, String, Option, some, Result, ok, err,
  Error, Result-cases, Option-cases, Bool-cases, inl, inr, arith, ◌==◌, is_version_error,
}
use tilt_apiserver.Storage.Objects.{Machinery, IsLawful, HasOwnErrors}
use tilt_apiserver.Storage.Version.{get_resource_version}
use tilt_apiserver.Storage.Tree.{VersionedData}
use tilt_apiserver.Storage.Registry.{Registry}
use tilt_apiserver.Storage.FileSystem.{FileSystem}
use tilt_apiserver.Storage.MemoryFs.{decode_buffer}
use tilt_apiserver.Storage.Contract.{Implements}
use tilt_apiserver.Storage.Rest.{FilepathRest, Context, object_file_name, get}
use tilt_apiserver.Storage.Rest.Get.{get_result, get_view, get-IsReady}
use tilt_apiserver.Storage.Rest.Write.{Others}
use tilt_apiserver.Storage.Rest.TryUpdate.{Outcome}
use tilt_apiserver.Storage.Rest.Update.{
  Attempt-cases, returned, conflicted, attempt_input, attempt_update, update_loop,
  guaranteed_update,
}
use tilt_apiserver.Storage.Rest.Update.Attempts.{Keeps, attempt-keeps, begun, again, IsReturned}
use tilt_apiserver.Storage.Rest.Update.Undisturbed.{decode_buffer_version}
use tilt_apiserver.Storage.Rest.Update.Outdated.{
  spec_write_outdated, decode_buffer_error, IsSmall, spec_write-IsSmall,
}

-- A file can be put at a path, and the version of the one that is there fits.
abbrev pub IsFine :
    (m : Machinery) (fs : FileSystem m) → Implements m fs → String → fs.State → Type 0
IsFine m fs c file s = c.IsReady file s × IsSmall ((c.view s).files (c.location file))

module _ (m : Machinery) (g : Registry m) (fs : FileSystem m) (f : FilepathRest)
    (c : Implements m fs) (law : IsLawful m) (own : HasOwnErrors m) (ctx : Context) (name : String)
    (others : Others fs.State)
    (update : Option m.Object → fs.State → Result (m.Object × Outcome) × fs.State) where
  abbrev pub file : String
  file = object_file_name f ctx name

  -- The state that the write of attempt `i` meets.
  abbrev met_state : ℕ → Option m.Object → fs.State → fs.State
  met_state i input s = others.before_write i (update input (get m g fs f ctx name s).1).1

  module _
      (met_fine : (n : ℕ) (s : fs.State)
        → IsFine m fs c file s
        → IsFine m fs c file (others.before_write n s))
      (updated_ready : (input : Option m.Object) (s : fs.State)
        → c.IsReady file s
        → c.IsReady file (update input s).1)
      (updated_view : (input : Option m.Object) (s : fs.State)
        → c.IsReady file s
        → c.view (update input s).1 ≡ c.view s) where
    Keeps-IsFine : Keeps m g fs f ctx name others update (IsFine m fs c file)
    Keeps-IsFine = record {
      got = λ s (h, b).
          (get-IsReady m g fs f c ctx name s h, rw (get_view m g fs f c ctx name s h) b);
      updated = λ input s (h, b). (updated_ready input s h, rw (updated_view input s h) b);
      met = met_fine;
      written = λ out version s (h, b). (
        c.write_ready file out version s h,
        rw (c.write_view file out version s h)
            (spec_write-IsSmall m (c.location file) out version (c.view s) b),
      );
    }

    -- What an attempt goes on from has the stored version.
    input_version :
        (s : fs.State) (v : VersionedData) (input : Option m.Object) (version : ℕ)
        → IsFine m fs c file s
        → (c.view s).files (c.location file) ≡ some v
        → attempt_input m g fs f (get m g fs f ctx name s).0 ≡ ok input
        → get_resource_version m input ≡ ok version
        → v.version ≡ version
    unfolding attempt_input
    input_version s v input version (ready, small) there read has =
        elim (Result-cases (decode_buffer m v)) [
          | inr (e, p) ↦ absurd (
              ground (
                arith,
                there,
                p,
                read,
                decode_buffer_error m own v e p,
                get_result m g fs f c ctx name s ready,
              ))
          | inl (o, p) ↦ ground (
            arith,
            there,
            p,
            read,
            has,
            decode_buffer_version m law v o (small v there) p,
            get_result m g fs f c ctx name s ready,
          )
        ]

    -- A write that goes to what the attempt began with is not outdated.
    write_current :
        (i : ℕ) (s : fs.State) (input : Option m.Object) (version : ℕ) (output : m.Object)
        (e : Error)
        → IsFine m fs c file s
        → ((t : fs.State) → others.before_write i t ≡ t)
        → attempt_input m g fs f (get m g fs f ctx name s).0 ≡ ok input
        → get_resource_version m input ≡ ok version
        → (fs.write file output version (met_state i input s)).0 ≡ err e
        → is_version_error e ≡ true
        → ⊥
    write_current i s input version output e (ready, small) alone read has failed t =
        let got = get-IsReady m g fs f c ctx name s ready in
        let same =
          ap c.view (alone (update input (get m g fs f ctx name s).1).1)
          ∙ updated_view input _ got
          ∙ get_view m g fs f c ctx name s ready in
        let ready' = subst (c.IsReady file) (sym (alone _)) (updated_ready input _ got) in
        let (v, there, differs) =
          spec_write_outdated m own (c.location file) output version (c.view (met_state i input s))
            e (sym (c.write_result file output version (met_state i input s) ready') ∙ failed) t in
        let e = input_version s v input version (ready, small) (rw (sym same) there) read has in
        ground (arith, differs, e)

    attempt_returns :
        (i : ℕ) (s : fs.State)
        → IsFine m fs c file s
        → ((t : fs.State) → others.before_write i t ≡ t)
        → (attempt_update m g fs f ctx name others update i s).0 ≢ conflicted
    unfolding attempt_update
    attempt_returns i s fine alone h = elim (Option-cases (ctx.ctx_err i)) [
      | inr (e, p) ↦ ground (arith, p, h)
      | inl p ↦ elim (Result-cases (attempt_input m g fs f (get m g fs f ctx name s).0)) [
        | inr (e, q) ↦ ground (arith, p, q, h)
        | inl (input, q) ↦ elim (Result-cases (get_resource_version m input)) [
          | inr (e, t) ↦ ground (arith, p, q, t, h)
          | inl (version, t) ↦ elim (Result-cases (update input (get m g fs f ctx name s).1).0) [
            | inr (e, u) ↦ ground (arith, p, q, t, u, h)
            | inl ((output, outcome), u) ↦
                elim (Result-cases (fs.write file output version (met_state i input s)).0) [
                  | inl (out, w) ↦ ground (arith, p, q, t, u, w, h)
                  | inr (e, w) ↦ elim (Bool-cases (is_version_error e)) [
                    | inr b ↦ ground (arith, p, q, t, u, w, b, h)
                    | inl b ↦ write_current i s input version output e fine alone q t w b
                  ]
                ]
          ]
        ]
      ]
    ]

    update_loop-IsReturned :
        (left i k : ℕ) (s : fs.State)
        → k < i + left
        → i ≤ k
        → ((n : ℕ) (t : fs.State) → k ≤ n → others.before_write n t ≡ t)
        → IsFine m fs c file s
        → IsReturned m g fs f ctx name others update i s k
            (update_loop m g fs f ctx name others update left i s).0
    unfolding update_loop
    update_loop-IsReturned zero i k s enough before alone fine = absurd (omega arith)
    update_loop-IsReturned (suc left) i k s enough before alone fine =
        let round = attempt_update m g fs f ctx name others update i s in
        elim (Attempt-cases round.0) [
          | inl (r, e) ↦ record {
            attempt = i;
            start = s;
            conflicts = begun;
            in_time = before;
            result = ground (arith, e);
          }
          | inr e ↦ elim (Bool-cases (i == k)) [
            | inl same ↦ absurd (attempt_returns i s fine (λ t. alone i t (ground (arith, same))) e)
            | inr other ↦
                let differs : i ≢ k = ground (arith, other) in
                let rest =
                  update_loop-IsReturned left (i + 1) k round.1 (omega arith) (omega arith) alone (
                    attempt-keeps m g fs f ctx name others update (IsFine m fs c file) Keeps-IsFine
                      i s fine) in
                record {
                  attempt = rest.attempt;
                  start = rest.start;
                  conflicts = again e rest.conflicts;
                  in_time = rest.in_time;
                  result = rest.result ∙ ap returned (ground (arith, e));
                }
          ]
        ]

    -- `guaranteedUpdate` ends in time: if the file at the object's path can be written, its version
    -- fits 64 bits, the function of the update leaves the store as it is, no error of the codec is
    -- taken for a conflict or a missing file, and the other users, who keep the file writable and
    -- its version small, leave the store alone from some attempt `k` below 100 on, then an attempt
    -- up to the `k`th returns what `guaranteedUpdate` returns, after attempts that met conflicts: the
    -- loop does not run out of attempts.
    pub guaranteed_update-IsReturned :
        (k : ℕ) (s : fs.State)
        → k < 100
        → ((n : ℕ) (t : fs.State) → k ≤ n → others.before_write n t ≡ t)
        → IsFine m fs c file s
        → IsReturned m g fs f ctx name others update 0 s k
            (guaranteed_update m g fs f ctx name others update s).0
    unfolding guaranteed_update
    guaranteed_update-IsReturned k s enough alone fine =
        update_loop-IsReturned 100 0 k s enough (omega arith) alone fine
