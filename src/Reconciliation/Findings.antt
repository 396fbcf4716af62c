-- ===== src/Reconciliation/Findings.antt =====
-- What a reconciliation of src/edgar_moe/forward/reconciliation.py finds and what it copies.
use edgar_moe.Common.{
  String, ◌≡◌, refl, sym, ◌∙◌, subst, inl, inr, some, List, ◌==◌, string_eq, nat_eq, Bool-cases,
  Option-cases,
}
use edgar_moe.Common.Outcomes.{Outcome, returned, raised}
use edgar_moe.Registry.Records.{ArtifactRecord}
use edgar_moe.Artifacts.{Bytes, Library, Store, StoreError, Reference, find, read_bytes}
use edgar_moe.Reconciliation.{
  Code, Verified, local_reference, is_unsafe, without_prefix, sized, read_back, verify_reference,
  verify,
}

module _ (lib : Library) (parts : String → List String) (local : Store) where
  -- The record names an object of the local store that has its digest and its size.
  pub record IsVerified (artifact : ArtifactRecord) : Type 0 where
    pub reference : Reference
    pub content : Bytes
    pub named : local_reference parts artifact ≡ returned reference
    pub stored : find reference.key local ≡ some content
    pub same_digest : lib.sha256_hex content ≡ artifact.sha256
    pub same_size : lib.size content ≡ artifact.size_bytes

  -- The reference of a record asks for the record's digest.
  local_reference-sha256 :
      (artifact : ArtifactRecord) (reference : Reference)
      → local_reference parts artifact ≡ returned reference
      → reference.sha256 ≡ artifact.sha256
  unfolding local_reference
  local_reference-sha256 artifact reference h =
      elim (Option-cases (without_prefix "local://" artifact.uri)) [
        | inl foreign ↦ cc (rw (foreign, local_reference) at h)
        | inr (key, named) ↦ elim (Bool-cases (is_unsafe key (parts key))) [
          | inl unsafe ↦ cc (rw (named, unsafe, local_reference) at h)
          | inr safe ↦ cc (rw (named, safe, local_reference) at h)
        ]
      ]

  read_bytes-inv :
      (reference : Reference) (content : Bytes)
      → read_bytes lib reference local ≡ returned content
      → (find reference.key local ≡ some content) × (lib.sha256_hex content ≡ reference.sha256)
  unfolding read_bytes
  read_bytes-inv reference content h = elim (Option-cases (find reference.key local)) [
    | inl missing ↦ cc (rw (missing, read_bytes) at h)
    | inr (c, found) ↦ elim (Bool-cases (lib.sha256_hex c == reference.sha256)) [
      | inr differs ↦ cc (rw (found, differs, read_bytes) at h)
      | inl same ↦
          let e : c ≡ content = cc (rw (found, same, read_bytes) at h) in
          (
            subst (λ x. find reference.key local ≡ some x) e found,
            subst (λ x. lib.sha256_hex x ≡ reference.sha256) e
                ((string_eq.same_iff (lib.sha256_hex c) reference.sha256).0 same),
          )
    ]
  ]

  sized-inv :
      (artifact : ArtifactRecord) (reference : Reference) (content : Bytes) (v : Verified)
      → sized lib parts artifact reference content ≡ returned v
      → lib.size content ≡ artifact.size_bytes
  sized-inv artifact reference content v h =
      elim (Bool-cases (lib.size content == artifact.size_bytes)) [
        | inl same ↦ (nat_eq.same_iff (lib.size content) artifact.size_bytes).0 same
        | inr differs ↦ cc (rw differs at h)
      ]

  read_back-IsVerified :
      (artifact : ArtifactRecord) (reference : Reference) (v : Verified)
      (o : Outcome StoreError Bytes)
      → local_reference parts artifact ≡ returned reference
      → read_bytes lib reference local ≡ o
      → read_back lib parts artifact reference o ≡ returned v
      → IsVerified artifact
  read_back-IsVerified artifact reference v (raised e) named read h = cc h
  read_back-IsVerified artifact reference v (returned content) named read h =
      let (stored, same) = read_bytes-inv reference content read in
      record {
        reference = reference;
        content = content;
        named = named;
        stored = stored;
        same_digest = same ∙ local_reference-sha256 artifact reference named;
        same_size = sized-inv artifact reference content v h;
      }

  verify_reference-IsVerified :
      (artifact : ArtifactRecord) (v : Verified) (o : Outcome Code Reference)
      → local_reference parts artifact ≡ o
      → verify_reference lib parts local artifact o ≡ returned v
      → IsVerified artifact
  verify_reference-IsVerified artifact v (raised code) named h = cc h
  verify_reference-IsVerified artifact v (returned reference) named h =
      read_back-IsVerified artifact reference v (read_bytes lib reference local) named refl h

  pub verify-IsVerified :
      (artifact : ArtifactRecord) (v : Verified)
      → verify lib parts local artifact ≡ returned v
      → IsVerified artifact
  unfolding verify
  verify-IsVerified artifact v h =
      verify_reference-IsVerified artifact v (local_reference parts artifact) refl h

  pub verify-returns :
      (artifact : ArtifactRecord) (g : IsVerified artifact)
      → verify lib parts local artifact
        ≡ returned (record { reference = g.reference; content = g.content })
  unfolding verify read_bytes
  verify-returns artifact g =
      let digest : lib.sha256_hex g.content ≡ g.reference.sha256 =
        g.same_digest ∙ sym (local_reference-sha256 artifact g.reference g.named) in
      rw
        (
          g.named,
          verify_reference,
          read_bytes,
          g.stored,
          (string_eq.same_iff (lib.sha256_hex g.content) g.reference.sha256).1 digest,
          read_back,
          sized,
          (nat_eq.same_iff (lib.size g.content) artifact.size_bytes).1 g.same_size,
        )
        refl
