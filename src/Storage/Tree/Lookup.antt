-- ===== src/Storage/Tree/Lookup.antt =====
-- The laws of the maps.
use tilt_apiserver.Base.{◌≡◌, refl, String, ◌=~◌, none, some, arith, eq_iff, if◌then◌else◌}
use tilt_apiserver.Storage.Tree.{Node, Dir, empty, entry, get_entry, set_entry, delete_entry}

pub get-set_entry :
    (key k : String) (node : Node) (d : Dir)
    → get_entry k (set_entry key node d) ≡ (if key =~ k then some node else get_entry k d)
unfolding get_entry set_entry
get-set_entry key k node empty = refl
get-set_entry key k node (entry j old d) =
    ground (arith, eq_iff key k, eq_iff j key, eq_iff j k, get-set_entry key k node d)

pub get-delete_entry :
    (key k : String) (d : Dir)
    → get_entry k (delete_entry key d) ≡ (if key =~ k then none else get_entry k d)
unfolding get_entry delete_entry
get-delete_entry key k empty = ground arith
get-delete_entry key k (entry j old d) =
    ground (arith, eq_iff key k, eq_iff j key, eq_iff j k, get-delete_entry key k d)
