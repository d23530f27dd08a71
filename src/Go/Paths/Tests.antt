-- ===== src/Go/Paths/Tests.antt =====
-- Runs of the path functions.
use tilt_apiserver.Base.{◌≡◌, refl, [], ◌∷◌}
use tilt_apiserver.Go.Paths.{clean, join, dir, base}

run1 : clean "/a/../b//./c/" ≡ "/b/c"
unfolding clean
run1 = refl

run2 : join ("data" ∷ "" ∷ "x" ∷ "a.json" ∷ []) ≡ "data/x/a.json"
unfolding join clean
run2 = refl

run3 : dir "a.json" ≡ "."
unfolding dir
run3 = refl

run4 : dir "/x/y.json" ≡ "/x"
unfolding dir
run4 = refl

run5 : base "/x/y.json" ≡ "y.json"
unfolding base
run5 = refl

run6 : clean "../a/../../b" ≡ "../../b"
unfolding clean
run6 = refl

run7 : base "///" ≡ "/"
unfolding base
run7 = refl

run8 : dir "/y.json" ≡ "/"
unfolding dir
run8 = refl
