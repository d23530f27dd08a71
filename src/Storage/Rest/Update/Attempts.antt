-- ===== src/Storage/Rest/Update/Attempts.antt =====
-- About what holds after an attempt of `guaranteedUpdate`, whatever its end.
use mathlib.Core.Path.{subst}
use tilt_apiserver.Base.{
  ℕ, ◌+◌, ◌≤◌, ◌≡◌, String, Option, Result, Result-cases, Option-cases, inl, inr, arith,
}
use tilt_apiserver.Storage.Objects.{Machinery}
use tilt_apiserver.Storage.Version.{get_resource_version}
use tilt_apiserver.Storage.Registry.{Registry}
use tilt_apiserver.Storage.FileSystem.{FileSystem}
use tilt_apiserver.Storage.Rest.{FilepathRest, Context, object_file_name, get}
use tilt_apiserver.Storage.Rest.Write.{Others}
use tilt_apiserver.Storage.Rest.TryUpdate.{Outcome}
use tilt_apiserver.Storage.Rest.Update.{returned, conflicted, attempt_input, attempt_update}

module _ (m : Machinery) (g : Registry m) (fs : FileSystem m) (f : FilepathRest) (ctx : Context)
    (name : String) (others : Others fs.State)
    (update : Option m.Object → fs.State → Result (m.Object × Outcome) × fs.State) where
  -- What every step of an attempt keeps.
  pub record Keeps (I : fs.State → Type 0) : Type 0 where
    pub got : (s : fs.State) → I s → I (get m g fs f ctx name s).1
    pub updated : (input : Option m.Object) (s : fs.State) → I s → I (update input s).1
    pub met : (n : ℕ) (s : fs.State) → I s → I (others.before_write n s)
    pub written :
        (out : m.Object) (version : ℕ) (s : fs.State)
        → I s
        → I (fs.write (object_file_name f ctx name) out version s).1

  pub attempt-keeps :
      (I : fs.State → Type 0) (keeps : Keeps I) (i : ℕ) (s : fs.State)
      → I s
      → I (attempt_update m g fs f ctx name others update i s).1
  unfolding attempt_update
  attempt-keeps I keeps i s h =
      let got = keeps.got s h in
      elim (Option-cases (ctx.ctx_err i)) [
        | inr (e, p) ↦ subst I (ground (arith, p)) h
        | inl p ↦ elim (Result-cases (attempt_input m g fs f (get m g fs f ctx name s).0)) [
          | inr (e, q) ↦ subst I (ground (arith, p, q)) got
          | inl (input, q) ↦ elim (Result-cases (get_resource_version m input)) [
            | inr (e, t) ↦ subst I (ground (arith, p, q, t)) got
            | inl (version, t) ↦ elim (Result-cases (update input (get m g fs f ctx name s).1).0) [
              | inr (e, u) ↦ subst I (ground (arith, p, q, t, u)) (keeps.updated input _ got)
              | inl ((output, outcome), u) ↦
                  subst I (ground (arith, p, q, t, u))
                    (keeps.written output version _ (keeps.met i _ (keeps.updated input _ got)))
            ]
          ]
        ]
      ]

  -- The attempts from `i` up to `n` meet conflicts, and lead from `s` to `t`.
  pub data Conflicts : (i : ℕ) (s : fs.State) (n : ℕ) (t : fs.State) → Type 0 where
    begun : {i : ℕ} {s : fs.State} → Conflicts i s i s
    again :
        {i n : ℕ} {s t : fs.State}
        → (attempt_update m g fs f ctx name others update i s).0 ≡ conflicted
        → Conflicts (i + 1) (attempt_update m g fs f ctx name others update i s).1 n t
        → Conflicts i s n t

  -- Where the loop that begins at attempt `i` in `s` ends: attempt `attempt` returns the result,
  -- after conflicts.
  pub record IsReturned (i : ℕ) (s : fs.State) (last : ℕ) (r : Result (m.Object × Outcome))
      : Type 0 where
    pub attempt : ℕ
    pub start : fs.State
    pub conflicts : Conflicts i s attempt start
    pub in_time : attempt ≤ last
    pub result : (attempt_update m g fs f ctx name others update attempt start).0 ≡ returned r
