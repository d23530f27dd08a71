-- ===== src/Tests/Disk.antt =====
-- A write to a disk of one file, with objects that are their own text and version.
use tilt_apiserver.Base.{◌≡◌, refl, true, false, String, [], none, some, ok, arith, Result}
use tilt_apiserver.Go.Decimal.{format_uint}
use tilt_apiserver.Storage.Objects.{Machinery, ReadsBack}
use tilt_apiserver.Storage.Version.{set_resource_version, format_resource_version}
use tilt_apiserver.Storage.RealFs.{Os, RealFs, new_real_fs, write, read, with_lock, increment_rev}
use tilt_apiserver.Storage.RealFs.LastWins.{KeepsFiles, write-read}

abbrev texts : Machinery
texts = record {
  Object = String;
  common_accessor = λ o. none;
  get_resource_version = λ o. o;
  set_resource_version = λ o v. v;
  encode = ok;
  decode = ok;
}

abbrev disk : Os
disk = record {
  Disk = String;
  remove = λ p d. (ok tt, d);
  stat = λ p d. true;
  mkdir_all = λ p d. (ok tt, d);
  read_file = λ p d. ok d;
  write_file = λ p content d. (ok tt, content);
  walk = λ p d. [];
}

abbrev disk_keeps : KeepsFiles disk
disk_keeps = record { read-write = λ p content d h. refl }

same_text : (o content : String) → Result.ok o ≡ ok content → Result.ok content ≡ ok o
same_text o content h = ground (arith, h)

abbrev texts_back : ReadsBack texts
texts_back = record {
  written = λ o. o;
  decode-encode = same_text;
  accessor-written = λ o. refl;
  written-set = λ o v. refl;
}

abbrev written : RealFs disk
written = record { disk = "2"; rev = 2; locked = false }

write_run : write texts disk "/data/web.json" "7" 7 (new_real_fs disk "1") ≡ some (ok "2", written)
unfolding write with_lock increment_rev new_real_fs set_resource_version format_resource_version
    format_uint
write_run = refl

write-read_example :
    (read texts disk "/data/web.json" written ≡ some (ok "2", written))
    × (write texts disk "/data/web.json" "7" 9 (new_real_fs disk "1") ≡ some (ok "2", written))
write-read_example =
    write-read texts disk disk_keeps texts_back "/data/web.json" "7" "2" 7 9 (new_real_fs disk "1")
      written write_run
