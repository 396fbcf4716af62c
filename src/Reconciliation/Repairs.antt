-- ===== src/Reconciliation/Repairs.antt =====
-- What a repair of src/edgar_moe/forward/reconciliation.py writes to the mirror.
use edgar_moe.Common.{
  Member, ℕ, suc, ◌+◌, String, true, ◌≡◌, refl, subst, inl, inr, some, List, [], ◌∷◌, length, arith,
  Bool-cases,
}
use edgar_moe.Common.Outcomes.{Outcome, returned, raised}
use edgar_moe.Common.Outcomes
use edgar_moe.Registry.Records.{ArtifactRecord, Database}
use edgar_moe.Registry.Reads.{list_artifacts, order_by, created_before}
use edgar_moe.Registry.Reads.Order.{length-order_by, from-order_by}
use edgar_moe.Artifacts.{Library, Store, Reference, ArtifactStore, are_equivalent}
use edgar_moe.Reconciliation.{
  Code, Verified, Tally, Report, verify, add_entry, mirror_entry, copied, last_part, reconcile_each,
  reconcile_registry_artifacts,
}
use edgar_moe.Reconciliation.Findings.{IsVerified, verify-IsVerified, verify-returns}

-- With a repair, a record is mirrored or an issue.
copied-counts :
    (artifact : ArtifactRecord) (reference : Reference) (o : Outcome String Reference) (t : Tally)
    (n : ℕ)
    → t.mirrored_count + length t.issues ≡ n
    → (add_entry artifact (copied reference o) t).mirrored_count
        + length (add_entry artifact (copied reference o) t).issues
      ≡ suc n
copied-counts artifact reference (raised e) t n h = omega (arith, h)
copied-counts artifact reference (returned copy) t n h =
    elim (Bool-cases (are_equivalent reference copy)) [
      | inl same ↦ rw same (omega (arith, h))
      | inr differs ↦ rw differs (omega (arith, h))
    ]

module _ {S : Type 0} (mirror : ArtifactStore S) where
  entry-counts :
      (artifact : ArtifactRecord) (o : Outcome Code Verified) (s : S) (t : Tally) (n : ℕ)
      → t.mirrored_count + length t.issues ≡ n
      → (add_entry artifact (mirror_entry (some mirror) o s).0 t).mirrored_count
          + length (add_entry artifact (mirror_entry (some mirror) o s).0 t).issues
        ≡ suc n
  entry-counts artifact (raised code) s t n h = omega (arith, h)
  entry-counts artifact (returned v) s t n h =
      copied-counts artifact v.reference (mirror.put v.content (last_part v.reference.key) s).0 t n
        h

module _ (lib : Library) (parts : String → List String) (local : Store) {S : Type 0}
    (mirror : ArtifactStore S) where
  reconcile_each-counts :
      (artifacts : List ArtifactRecord) (s : S)
      → (reconcile_each lib parts local (some mirror) artifacts s).0.mirrored_count
          + length (reconcile_each lib parts local (some mirror) artifacts s).0.issues
        ≡ length artifacts
  unfolding reconcile_each
  reconcile_each-counts [] s = refl
  reconcile_each-counts (a ∷ rest) s =
      entry-counts mirror a (verify lib parts local a) s _ (length rest)
        (reconcile_each-counts rest (mirror_entry (some mirror) (verify lib parts local a) s).1)

  -- What every write of the verified bytes of a registered artifact keeps.
  module _ (db : Database) (I : S → Type 0)
      (keeps : (artifact : ArtifactRecord) (g : IsVerified lib parts local artifact) (s : S)
        → Member artifact db.artifacts
        → I s
        → I (mirror.put g.content (last_part g.reference.key) s).1) where
    entry-keeps :
        (artifact : ArtifactRecord) (o : Outcome Code Verified) (s : S)
        → verify lib parts local artifact ≡ o
        → Member artifact db.artifacts
        → I s
        → I (mirror_entry (some mirror) o s).1
    entry-keeps artifact (raised code) s e among h = h
    entry-keeps artifact (returned v) s e among h =
        let g = verify-IsVerified lib parts local artifact v e in
        let same : record { reference = g.reference; content = g.content } ≡ v =
          cc (verify-returns lib parts local artifact g, e) in
        subst (λ (u : Verified). I (mirror.put u.content (last_part u.reference.key) s).1) same
          (keeps artifact g s among h)

    reconcile_each-keeps :
        (artifacts : List ArtifactRecord) (s : S)
        → ((a : ArtifactRecord) → Member a artifacts → Member a db.artifacts)
        → I s
        → I (reconcile_each lib parts local (some mirror) artifacts s).1
    unfolding reconcile_each
    reconcile_each-keeps [] s among h = h
    reconcile_each-keeps (a ∷ rest) s among h =
        reconcile_each-keeps rest _ (λ b k. among b (inr k))
          (entry-keeps a (verify lib parts local a) s refl (among a (inl refl)) h)

    pub record IsRepair (o : Outcome (Unit {0}) (Report × S)) : Type 0 where
      pub report : Report
      pub after : S
      pub returns : o ≡ returned (report, after)
      pub kept : I after
      pub expected : report.expected_artifacts ≡ length db.artifacts
      pub complete : report.mirrored_artifacts + length report.issues ≡ report.expected_artifacts

    -- A repair returns a report in which every artifact of the registry is counted once, as
    -- mirrored or as an issue. If a property of the mirror's state is kept by every write, whether
    -- it returns or raises, of bytes that were read back from the local store with the digest and
    -- the size of a registered artifact, under the last part of that object's key, and it holds
    -- before, then it holds after the repair: nothing else is written.
    pub reconcile_registry_artifacts-IsRepair :
        (s : S)
        → I s
        → IsRepair (reconcile_registry_artifacts lib parts local (some mirror) true db s)
    unfolding reconcile_registry_artifacts list_artifacts Outcomes.◌>>=◌
    reconcile_registry_artifacts-IsRepair s h =
        let artifacts = order_by created_before db.artifacts in
        record {
          report = _;
          after = _;
          returns = refl;
          kept =
              reconcile_each-keeps artifacts s
                (λ a k. from-order_by created_before a db.artifacts k) h;
          expected = length-order_by created_before db.artifacts;
          complete = reconcile_each-counts artifacts s;
        }
