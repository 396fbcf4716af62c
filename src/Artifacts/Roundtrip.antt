-- ===== src/Artifacts/Roundtrip.antt =====
-- What is written to a content-addressed store reads back, there and behind a mirror.
use edgar_moe.Common.{
  String, true, ◌≡◌, ◌↔◌, refl, sym, ap, ◌∙◌, subst, inl, inr, Option, none, some, [], ◌∷◌, ◌==◌,
  string_eq, All, Bool-cases, Option-cases,
}
use edgar_moe.Common.Outcomes.{returned, Returns, Returns-ensure, Returns-from, Returns-ok}
use edgar_moe.Artifacts.{
  Bytes, Key, same_key, Reference, Library, Store, find, content_key, put_bytes, read_bytes,
  reference_to, write_new,
}

-- The digest in a key.
abbrev pub digest_of : Key → Option String
digest_of (a ∷ b ∷ digest ∷ rest) = some digest
digest_of _ = none

-- Each object lies under the digest of its content.
abbrev pub IsAddressed : Library → Store → Type 0
IsAddressed lib store = All (λ o. digest_of o.key ≡ some (lib.sha256_hex o.content)) store

same_key_iff : (a b : Key) → (same_key a b ≡ true) ↔ (a ≡ b)
same_key_iff [] [] = (λ _. refl, λ _. refl)
same_key_iff [] (y ∷ ys) = (λ h. cc h, λ h. cc h)
same_key_iff (x ∷ xs) [] = (λ h. cc h, λ h. cc h)
same_key_iff (x ∷ xs) (y ∷ ys) =
    let (down, up) = same_key_iff xs ys in
    let (from, to) = string_eq.same_iff x y in
    (
      λ h. elim (Bool-cases (x == y)) [
        | inl e ↦ cc (from e, down (rw e at h))
        | inr e ↦ cc (rw e at h)
      ],
      λ h. rw (to (cc h), up (cc h)) refl,
    )

find-IsAddressed :
    (lib : Library) (key : Key) (store : Store) {content : Bytes}
    → IsAddressed lib store
    → find key store ≡ some content
    → digest_of key ≡ some (lib.sha256_hex content)
find-IsAddressed lib key [] h e = cc e
find-IsAddressed lib key (o ∷ os) h e = elim (Bool-cases (same_key o.key key)) [
  | inl found ↦
      let same : o.content ≡ _ = cc (rw found at e) in
      ap digest_of (sym ((same_key_iff o.key key).0 found))
      ∙ h.0
      ∙ ap (λ c. some (lib.sha256_hex c)) same
  | inr other ↦ find-IsAddressed lib key os h.1 (rw other at e)
]

module _ (lib : Library) where
  content_key-digest :
      (digest name : String)
      → Returns (λ key. digest_of key ≡ some digest) (content_key lib digest name)
  unfolding content_key
  content_key-digest digest name = Returns-ensure _ _ _ _ λ valid. refl

  -- The reference reads back as bytes with the hash of what was put.
  abbrev ReadsBack : Bytes → Reference → Store → Type 0
  ReadsBack content ref store =
      (c : Bytes) × ((read_bytes lib ref store ≡ returned c)
        × (lib.sha256_hex c ≡ lib.sha256_hex content))

  read_bytes-eq :
      (ref : Reference) (store : Store) {content : Bytes}
      → find ref.key store ≡ some content
      → lib.sha256_hex content ≡ ref.sha256
      → read_bytes lib ref store ≡ returned content
  unfolding read_bytes
  read_bytes-eq ref store {content} found same =
      rw (found, read_bytes, (string_eq.same_iff (lib.sha256_hex content) ref.sha256).1 same) refl

  abbrev Written : (scheme : String) → Bytes → Store → Reference × Store → Type 0
  Written scheme content store (ref, store') = IsAddressed lib store' × ReadsBack content ref store'

  write_new-Written :
      (scheme : String) (content : Bytes) (key : Key) (store : Store)
      → IsAddressed lib store
      → digest_of key ≡ some (lib.sha256_hex content)
      → Written scheme content store
          (reference_to lib scheme content key, write_new key content store)
  write_new-Written scheme content key store h digest = elim (Option-cases (find key store)) [
    | inl absent ↦
        rw (absent, write_new)
          (
            (digest, h),
            (
              content,
              (
                read_bytes-eq (reference_to lib scheme content key)
                    (record { key = key; content = content } ∷ store)
                    (rw ((same_key_iff key key).1 refl) refl) refl,
                refl,
              ),
            ),
          )
    | inr (c, present) ↦
        let same : lib.sha256_hex c ≡ lib.sha256_hex content =
          cc (find-IsAddressed lib key store h present, digest) in
        rw (present, write_new)
          (h, (c, (read_bytes-eq (reference_to lib scheme content key) store present same, same)))
  ]

  put_bytes-Written :
      (scheme : String) (content : Bytes) (name : String) (store : Store)
      → IsAddressed lib store
      → Returns (Written scheme content store) (put_bytes lib scheme content name store)
  unfolding put_bytes
  put_bytes-Written scheme content name store h = Returns-from _ _ _ λ key keyed.
      Returns-ensure _ _ _ _ λ taken.
        write_new-Written scheme content key store h
          (Returns-ok _ _ (content_key-digest (lib.sha256_hex content) name) keyed)

  find-write_new :
      (k key : Key) (content c : Bytes) (store : Store)
      → find k store ≡ some c
      → find k (write_new key content store) ≡ some c
  find-write_new k key content c store h = elim (Option-cases (find key store)) [
    | inr (old, present) ↦ rw (present, write_new) h
    | inl absent ↦
        rw (absent, write_new)
          (elim (Bool-cases (same_key key k)) [
            | inl same ↦
                let e : find k store ≡ none =
                  subst (λ j. find j store ≡ none) ((same_key_iff key k).0 same) absent in
                cc (e, h)
            | inr other ↦ rw other h
          ])
  ]

  read_bytes-write_new :
      (ref : Reference) (key : Key) (content c : Bytes) (store : Store)
      → read_bytes lib ref store ≡ returned c
      → read_bytes lib ref (write_new key content store) ≡ returned c
  unfolding read_bytes
  read_bytes-write_new ref key content c store h = elim (Option-cases (find ref.key store)) [
    | inl absent ↦ cc (rw (absent, read_bytes) at h)
    | inr (old, present) ↦
        rw (find-write_new ref.key key content old store present, read_bytes)
          (rw (present, read_bytes) at h)
  ]

  module _ (scheme : String) (content : Bytes) (name : String) (store : Store) where
    put_bytes-Readable :
        (older : Reference) (c : Bytes)
        → read_bytes lib older store ≡ returned c
        → Returns
            (λ (ref, store'). read_bytes lib older store' ≡ returned c)
            (put_bytes lib scheme content name store)
    unfolding put_bytes
    put_bytes-Readable older c h = Returns-from _ _ _ λ key keyed.
        Returns-ensure _ _ _ _ λ taken. read_bytes-write_new older key content c store h

    -- In a store where each object lies under the digest of its content, and where no other bytes
    -- have the digest of the bytes that are put: when the write returns, the reference reads back as
    -- exactly these bytes, and each object still lies under the digest of its content.
    pub put_bytes-read_bytes :
        {ref : Reference} {store' : Store}
        → IsAddressed lib store
        → ((c : Bytes) → lib.sha256_hex c ≡ lib.sha256_hex content → c ≡ content)
        → put_bytes lib scheme content name store ≡ returned (ref, store')
        → (IsAddressed lib store' × (read_bytes lib ref store' ≡ returned content))
    put_bytes-read_bytes h no_collision e =
        let (addressed, (c, (reads, same))) =
          Returns-ok _ _ (put_bytes-Written scheme content name store h) e in
        (addressed, reads ∙ ap (λ (b : Bytes). returned b) (no_collision c same))

    -- A write leaves every reference that could be read readable, as the same bytes.
    pub put_bytes-keeps :
        (older : Reference) (c : Bytes) {ref : Reference} {store' : Store}
        → put_bytes lib scheme content name store ≡ returned (ref, store')
        → read_bytes lib older store ≡ returned c
        → read_bytes lib older store' ≡ returned c
    put_bytes-keeps older c e h = Returns-ok _ _ (put_bytes-Readable older c h) e
