-- ===== src/Storage/FileSystem.antt =====
-- The interface `FS` of pkg/storage/filepath/fs.go: what the REST storage uses of a file system.
use tilt_apiserver.Base.{ℕ, Bool, String, List, Result}
use tilt_apiserver.Storage.Objects.{Machinery}

-- A visit function: it may change the file system, and the list that its caller collects.
abbrev pub Visitor : Machinery → Type 0 → Type 0
Visitor m S = String → m.Object → List m.Object → S → Result (List m.Object) × S

-- Each method takes the state and returns the new one with its results. `write` returns the object
-- that the caller's pointer holds afterwards, and `visit_dir` what the visits collected, with the
-- revision. The codec and the function that makes a new object are those of `Machinery`.
pub record FileSystem (m : Machinery) : Type 1 where
  pub State : Type 0
  pub remove : String → State → Result (Unit {0}) × State
  pub exists : String → State → Bool × State
  pub ensure_dir : String → State → Result (Unit {0}) × State
  pub write : String → m.Object → ℕ → State → Result m.Object × State
  pub read : String → State → Result m.Object × State
  pub visit_dir :
      String
      → Visitor m State
      → State
      → Result (record { items : List m.Object; revision : ℕ }) × State
