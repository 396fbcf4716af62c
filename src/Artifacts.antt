-- ===== src/Artifacts.antt =====
-- The content-addressed stores of src/edgar_moe/forward/artifacts.py. A key stands as the list of
-- its path's parts, and a store as its objects by key; bytes stand as a text.
pub mod Roundtrip
pub mod Mirroring
mod Tests
use edgar_moe.Common.{
  ℕ, String, Bool, true, false, not, ◌&&◌, ◌||◌, ◌≡◌, ◌↔◌, refl, Option, none, some, List, [], ◌∷◌,
  if◌then◌else◌, ◌==◌, Eq, string_eq, nat_eq, get,
}
use edgar_moe.Common.Outcomes.{Outcome, returned, raised, ◌>>=◌, ◌>>◌, ensure}
use edgar_moe.Registry.Session.{take_chars}

abbrev pub Bytes : Type 0
Bytes = String

abbrev pub Key : Type 0
Key = List String

abbrev pub same_key : Key → Key → Bool
same_key [] [] = true
same_key (x ∷ xs) (y ∷ ys) = (x == y) && same_key xs ys
same_key _ _ = false

-- An `ArtifactReference`; the scheme of its URI says which store made it.
pub record Reference : Type 0 where
  pub scheme : String
  pub sha256 : String
  pub size_bytes : ℕ
  pub key : Key

-- `cause_type` of an `ArtifactWriteError` is the name of the error of the mirror.
pub data StoreError : Type 0 where
  value_error file_not_found os_error : StoreError
  artifact_write : (primary_reference : Reference) (cause_type : String) → StoreError

-- SHA-256, the number of bytes, the last part of a path (`PurePosixPath(name).name`), and the disk.
pub record Library : Type 0 where
  pub sha256_hex : Bytes → String
  pub size : Bytes → ℕ
  pub base_name : String → String
  -- whether the disk takes a new object under the key
  pub takes : Key → Bool

pub record Object : Type 0 where
  pub key : Key
  pub content : Bytes

abbrev pub Store : Type 0
Store = List Object

abbrev pub find : Key → Store → Option Bytes
find key [] = none
find key (o ∷ os) = if same_key o.key key then some o.content else find key os

-- An object that exists is left as it is.
abbrev pub write_new : Key → Bytes → Store → Store
write_new key content store = elim (find key store) [
  | some _ ↦ store
  | none ↦ record { key = key; content = content } ∷ store
]

abbrev pub is_held : Key → Store → Bool
is_held key store = elim (find key store) [ some _ ↦ true | none ↦ false ]

abbrev pub unusable : Library → (logical_name : String) → Bool
unusable lib logical_name =
    let name = lib.base_name logical_name in name == "" || (name == "." || name == "..")

-- `_content_key`
unfoldable pub content_key : Library → (digest logical_name : String) → Outcome StoreError Key
unfolding take_chars
content_key lib digest logical_name = do
  ensure (not (unusable lib logical_name)) StoreError.value_error
  returned ("sha256" ∷ take_chars 2 digest ∷ digest ∷ lib.base_name logical_name ∷ [])

module _ (lib : Library) where
  abbrev pub reference_to : (scheme : String) → Bytes → Key → Reference
  reference_to scheme content key = record {
    scheme = scheme;
    sha256 = lib.sha256_hex content;
    size_bytes = lib.size content;
    key = key;
  }

  -- `LocalArtifactStore.put_bytes`. The new file is written under a temporary name first and then
  -- renamed.
  unfoldable pub put_bytes :
      (scheme : String)
      → Bytes
      → (logical_name : String) → Store
      → Outcome StoreError (Reference × Store)
  put_bytes scheme content logical_name store = do
    key ← content_key lib (lib.sha256_hex content) logical_name
    ensure (is_held key store || lib.takes key) StoreError.os_error
    returned (reference_to scheme content key, write_new key content store)

  -- `LocalArtifactStore.read_bytes`
  unfoldable pub read_bytes : Reference → Store → Outcome StoreError Bytes
  read_bytes reference store = elim (find reference.key store) [
    | none ↦ raised StoreError.file_not_found
    | some content ↦
        if lib.sha256_hex content == reference.sha256
        then returned content
        else raised StoreError.value_error
  ]

-- `_require_equivalent_references`
abbrev pub are_equivalent : Reference → Reference → Bool
are_equivalent primary mirror =
    (mirror.sha256 == primary.sha256)
    && ((mirror.size_bytes == primary.size_bytes) && same_key mirror.key primary.key)

-- A store as another party offers it: what a write and a read give, and the state after a write,
-- which a write that raises may have changed.
-- The mirror of a `MirroredArtifactStore` is a parameter.
pub record ArtifactStore (S : Type 0) : Type 0 where
  pub put : Bytes → (logical_name : String) → S → Outcome String Reference × S
  pub read : Reference → S → Outcome StoreError Bytes

abbrev is_os_error : StoreError → Bool
is_os_error StoreError.file_not_found = true
is_os_error StoreError.os_error = true
is_os_error (StoreError.artifact_write reference cause_type) = true
is_os_error StoreError.value_error = false

-- What becomes of a write once the primary has its object and the mirror has answered.
abbrev pub after_mirror :
    {S : Type 0} (primary : Reference)
    → Store
    → Outcome String Reference × S
    → Outcome StoreError Reference × (Store × S)
after_mirror primary store (raised cause, s) =
    (raised (StoreError.artifact_write primary cause), (store, s))
after_mirror primary store (returned copy, s) = (
  if are_equivalent primary copy
      then returned primary
      else raised (StoreError.artifact_write primary "identity_mismatch"),
  (store, s),
)

module _ (lib : Library) {S : Type 0} (mirror : ArtifactStore S) where
  abbrev pub after_primary :
      Bytes
      → (logical_name : String) → Store
      → S
      → Outcome StoreError (Reference × Store)
      → Outcome StoreError Reference × (Store × S)
  after_primary content logical_name store s (raised e) = (raised e, (store, s))
  after_primary content logical_name store s (returned (primary, store')) =
      after_mirror primary store' (mirror.put content logical_name s)

  -- `MirroredArtifactStore.put_bytes`. Whatever it gives, the primary write has happened.
  unfoldable pub mirrored_put :
      Bytes → (logical_name : String) → Store × S → Outcome StoreError Reference × (Store × S)
  mirrored_put content logical_name (store, s) =
      after_primary content logical_name store s (put_bytes lib "local" content logical_name store)

  -- `MirroredArtifactStore.read_bytes`
  unfoldable pub mirrored_read : Reference → Store × S → Outcome StoreError Bytes
  mirrored_read reference (store, s) = elim (read_bytes lib reference store) [
    | returned content ↦ returned content
    | raised e ↦ if is_os_error e then mirror.read reference s else raised e
  ]
