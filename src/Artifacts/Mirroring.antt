-- ===== src/Artifacts/Mirroring.antt =====
-- A mirrored write, whatever the mirror does.
use edgar_moe.Common.{
  Bool, true, false, not, ◌||◌, ◌⊎◌, String, ◌≡◌, refl, sym, subst, Bool-cases, inl, inr,
}
use edgar_moe.Common.Outcomes.{Outcome, returned, raised, ◌>>=◌, ensure}
use edgar_moe.Artifacts.{
  Bytes, Reference, StoreError, Library, Store, put_bytes, read_bytes, ArtifactStore, is_held,
  are_equivalent, mirrored_put, content_key, unusable, after_mirror, after_primary,
}
use edgar_moe.Artifacts.Roundtrip.{IsAddressed, put_bytes-read_bytes}

-- What a write leaves of the primary copy: a reference that was returned, or that a mirror error
-- carries, reads back; after any other error nothing was written.
abbrev pub KeepsPrimary :
    {S : Type 0} → Library → Bytes → Store → Outcome StoreError Reference × (Store × S) → Type 0
KeepsPrimary lib content store (returned ref, (store', s)) =
    read_bytes lib ref store' ≡ returned content
KeepsPrimary lib content store (raised (StoreError.artifact_write ref cause), (store', s)) =
    read_bytes lib ref store' ≡ returned content
KeepsPrimary lib content store (raised e, (store', s)) = store' ≡ store

guard_error :
    {A : Type 0} (b : Bool) (a : A) {given e : StoreError}
    → (ensure b given >>= λ _. returned a) ≡ raised e
    → e ≡ given
unfolding ◌>>=◌ ensure
guard_error true a h = cc h
guard_error false a h = cc h

-- Where the first of two steps returns, an error is of the second.
bind_error :
    {A B : Type 0} (m : Outcome StoreError A) (f : A → Outcome StoreError B) {e : StoreError}
    → (m >>= f) ≡ raised e
    → (m ≡ raised e) ⊎ ((a : A) × (f a ≡ raised e))
unfolding ◌>>=◌
bind_error (returned a) f h = inr (a, h)
bind_error (raised d) f h = inl (cc h)

module _ (lib : Library) (content : Bytes) (name : String) (store : Store) where
  -- Only an unusable name and the disk make the primary store raise.
  put_bytes_error :
      {e : StoreError}
      → put_bytes lib "local" content name store ≡ raised e
      → (e ≡ StoreError.value_error) ⊎ (e ≡ StoreError.os_error)
  unfolding put_bytes content_key
  put_bytes_error h = elim (bind_error _ _ h) [
    | inl unnamed ↦ inl (guard_error (not (unusable lib name)) _ unnamed)
    | inr (key, full) ↦ inr (guard_error (is_held key store || lib.takes key) _ full)
  ]

  module _ {S : Type 0} (mirror : ArtifactStore S) (s : S) where
    after_mirror-KeepsPrimary :
        (ref : Reference) (store' : Store) (answer : Outcome String Reference × S)
        → read_bytes lib ref store' ≡ returned content
        → KeepsPrimary lib content store (after_mirror ref store' answer)
    after_mirror-KeepsPrimary ref store' (raised cause, s') h = h
    after_mirror-KeepsPrimary ref store' (returned copy, s') h =
        elim (Bool-cases (are_equivalent ref copy)) [
          | inl same ↦ rw same h
          | inr other ↦ rw other h
        ]

    after_primary-KeepsPrimary :
        (r : Outcome StoreError (Reference × Store))
        → put_bytes lib "local" content name store ≡ r
        → IsAddressed lib store
        → ((c : Bytes) → lib.sha256_hex c ≡ lib.sha256_hex content → c ≡ content)
        → KeepsPrimary lib content store (after_primary lib mirror content name store s r)
    after_primary-KeepsPrimary (raised e) eq h no_collision = elim (put_bytes_error eq) [
      | inl unnamed ↦
          subst (λ x. KeepsPrimary {S = S} lib content store (raised x, (store, s))) (sym unnamed)
            refl
      | inr full ↦
          subst (λ x. KeepsPrimary {S = S} lib content store (raised x, (store, s))) (sym full) refl
    ]
    after_primary-KeepsPrimary (returned (ref, store')) eq h no_collision =
        after_mirror-KeepsPrimary ref store' _
          (put_bytes-read_bytes lib "local" content name store h no_collision eq).1

    -- In a primary store where each object lies under the digest of its content, and where no other
    -- bytes have the digest of the bytes that are put: whatever the mirror answers, the reference
    -- that a mirrored write returns, or that its write error carries, reads back from the primary
    -- store as exactly these bytes, and any other error leaves the primary store as it was.
    pub mirrored_put-KeepsPrimary :
        IsAddressed lib store
        → ((c : Bytes) → lib.sha256_hex c ≡ lib.sha256_hex content → c ≡ content)
        → KeepsPrimary lib content store (mirrored_put lib mirror content name (store, s))
    unfolding mirrored_put
    mirrored_put-KeepsPrimary h no_collision =
        after_primary-KeepsPrimary (put_bytes lib "local" content name store) refl h no_collision
