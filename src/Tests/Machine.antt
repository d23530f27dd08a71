-- ===== src/Tests/Machine.antt =====
-- Small objects: a text and a resource version. An object is encoded with no version, as its text.
use tilt_apiserver.Base.{
  ◌≡◌, refl, true, false, String, ◌=~◌, [], ◌∷◌, none, ok, err, eq_iff, arith, internal,
  if◌then◌else◌,
}
use tilt_apiserver.Storage.Objects.{Machinery, IsLawful, ReadsBack}
use tilt_apiserver.Storage.Registry.{Registry}
use tilt_apiserver.Storage.MemoryFs.{MemoryFs}
use tilt_apiserver.Storage.Rest.{FilepathRest, Context}
use tilt_apiserver.Storage.Rest.Write.{Others}

pub record Note : Type 0 where
  pub text : String
  pub resource_version : String

abbrev pub note : String → String → Note
note text version = record { text = text; resource_version = version }

abbrev pub notes : Machinery
notes = record {
  Object = Note;
  common_accessor = λ o. none;
  get_resource_version = λ o. o.resource_version;
  set_resource_version = λ o v. record o { resource_version = v };
  encode = λ o. if o.resource_version =~ "" then ok o.text else err (internal "versioned");
  decode = λ s. ok (note s "");
}

pub encode_lem :
    (o : Note) (content : String) → notes.encode o ≡ ok content → notes.decode content ≡ ok o
encode_lem o content h = ground (arith, h, eq_iff o.resource_version "")

abbrev pub notes_lawful : IsLawful notes
notes_lawful = record {
  get-set = λ o v. refl;
  set-set = λ o v w. refl;
  set-get = λ o. refl;
  accessor-set = λ o v. refl;
}

abbrev pub notes_back : ReadsBack notes
notes_back = record {
  written = λ o. o;
  decode-encode = encode_lem;
  accessor-written = λ o. refl;
  written-set = λ o v. refl;
}

-- All notes have the same name, and no finalizers.
abbrev pub note_registry : Registry notes
note_registry = record {
  accessor = λ o. none;
  get_name = λ o. "web";
  get_finalizers = λ o. [];
  get_deletion_timestamp = λ o. none;
  set_deletion_timestamp = λ o t. o;
  set_deletion_grace_period_seconds = λ o t. o;
  fill_object_meta_system_fields = λ o. o;
  before_create = λ o. ok o;
  before_update = λ o old. ok (o, old);
  before_update_of_nil = λ o. ok o;
  LabelSelector = Unit;
  FieldSelector = Unit;
  everything_label = tt;
  everything_field = tt;
  matches = λ l f o. ok true;
}

abbrev pub rest : FilepathRest
rest = record { obj_root_path = "/data"; namespace_scoped = false; list_err = none }

abbrev pub context : Context
context = record { namespace = none; ctx_err = λ i. none }

-- Nobody else uses the files.
abbrev pub nobody : Others MemoryFs
nobody = record { before_write = λ n s. s; before_remove = λ s. s }

-- The same, where every note has a finalizer.
abbrev pub held_registry : Registry notes
held_registry = record note_registry { get_finalizers = λ o. "held" ∷ [] }
