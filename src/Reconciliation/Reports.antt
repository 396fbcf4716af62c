-- ===== src/Reconciliation/Reports.antt =====
-- What the report of src/edgar_moe/forward/reconciliation.py says, and what a repair writes.
use edgar_moe.Common.{
  ℕ, suc, ◌+◌, String, true, false, ◌≡◌, ◌↔◌, refl, sym, ◌∙◌, ap, subst, inl, inr, Option, none,
  List, [], ◌∷◌, Member, length, arith,
}
use edgar_moe.Common.Outcomes.{Outcome, returned, raised}
use edgar_moe.Common.Outcomes
use edgar_moe.Registry.Records.{ArtifactRecord, Database}
use edgar_moe.Registry.Reads.{list_artifacts, order_by, created_before}
use edgar_moe.Registry.Reads.Order.{from-order_by, into-order_by, length-order_by}
use edgar_moe.Artifacts.{Library, Store, ArtifactStore}
use edgar_moe.Reconciliation.{
  Code, Verified, Tally, Report, Issue, verify, add_entry, mirror_entry, reconcile_each,
  reconcile_registry_artifacts, report_of, no_issues,
}
use edgar_moe.Reconciliation.Findings.{IsVerified, verify-IsVerified, verify-returns}

no_issues_iff : (is : List Issue) → (no_issues is ≡ true) ↔ (length is ≡ 0)
no_issues_iff [] = (λ _. refl, λ _. refl)
no_issues_iff (i ∷ is) = (λ h. cc h, λ h. cc h)

module _ (lib : Library) (parts : String → List String) (local : Store) where
  -- Every record of a list is verified.
  abbrev pub AllVerified : List ArtifactRecord → Type 0
  AllVerified artifacts = (a : ArtifactRecord) → Member a artifacts → IsVerified lib parts local a

  -- One record without a repair.
  entry_iff :
      {S : Type 0} (artifact : ArtifactRecord) (o : Outcome Code Verified) (s : S) (t : Tally)
      → verify lib parts local artifact ≡ o
      → (length (add_entry artifact (mirror_entry {S = S} none o s).0 t).issues ≡ 0)
        ↔ (IsVerified lib parts local artifact × (length t.issues ≡ 0))
  entry_iff artifact (raised code) s t e =
      (λ h. cc h, λ (v, _). cc (verify-returns lib parts local artifact v, e))
  entry_iff artifact (returned v) s t e =
      (λ h. (verify-IsVerified lib parts local artifact v e, h), λ (_, h). h)

  module _ {S : Type 0} where
    abbrev tally : Option (ArtifactStore S) → List ArtifactRecord → S → Tally
    tally target artifacts s = (reconcile_each lib parts local target artifacts s).0

    unchanged : (o : Outcome Code Verified) (s : S) → (mirror_entry none o s).1 ≡ s
    unchanged (raised code) s = refl
    unchanged (returned v) s = refl

    reconcile_each-unchanged :
        (artifacts : List ArtifactRecord) (s : S)
        → (reconcile_each lib parts local none artifacts s).1 ≡ s
    unfolding reconcile_each
    reconcile_each-unchanged [] s = refl
    reconcile_each-unchanged (a ∷ rest) s =
        reconcile_each-unchanged rest (mirror_entry none (verify lib parts local a) s).1
        ∙ unchanged (verify lib parts local a) s

    reconcile_each_iff :
        (artifacts : List ArtifactRecord) (s : S)
        → (length (tally none artifacts s).issues ≡ 0) ↔ AllVerified artifacts
    unfolding reconcile_each
    reconcile_each_iff [] s = (λ _ a k. absurd k, λ _. refl)
    reconcile_each_iff (a ∷ rest) s =
        let o = verify lib parts local a in
        let s' = (mirror_entry {S = S} none o s).1 in
        let (down, up) = entry_iff a o s (tally none rest s') refl in
        let (all, none_left) = reconcile_each_iff rest s' in
        (
          λ h b k. elim k [
            | inl same ↦ subst (IsVerified lib parts local) (sym same) (down h).0
            | inr later ↦ all (down h).1 b later
          ],
          λ h. up (h a (inl refl), none_left (λ b k. h b (inr k))),
        )

    -- Each record is counted once: without a repair as verified or as an issue.
    entry-counts :
        (artifact : ArtifactRecord) (o : Outcome Code Verified) (s : S) (t : Tally) (n : ℕ)
        → t.verified_count + length t.issues ≡ n
        → (add_entry artifact (mirror_entry {S = S} none o s).0 t).verified_count
            + length (add_entry artifact (mirror_entry {S = S} none o s).0 t).issues
          ≡ suc n
    entry-counts artifact (raised code) s t n h = omega (arith, h)
    entry-counts artifact (returned v) s t n h = omega (arith, h)

    reconcile_each-counts :
        (artifacts : List ArtifactRecord) (s : S)
        → (tally none artifacts s).verified_count + length (tally none artifacts s).issues
          ≡ length artifacts
    unfolding reconcile_each
    reconcile_each-counts [] s = refl
    reconcile_each-counts (a ∷ rest) s =
        entry-counts a (verify lib parts local a) s _ (length rest)
          (reconcile_each-counts rest (mirror_entry none (verify lib parts local a) s).1)

    -- A report on the artifacts of a database. It passes exactly when every one of them names an
    -- object of the local store with its digest and its size.
    pub record IsCheck (db : Database) (s : S) (o : Outcome (Unit {0}) (Report × S)) : Type 0 where
      pub report : Report
      pub returns : o ≡ returned (report, s)
      pub expected : report.expected_artifacts ≡ length db.artifacts
      pub complete : report.verified_artifacts + length report.issues ≡ report.expected_artifacts
      pub passes : (report.has_passed ≡ true) ↔ AllVerified db.artifacts

    -- A reconciliation without a repair returns a report and leaves the mirror as it was. Every
    -- artifact of the registry is counted once, as verified or as an issue, and the report passes
    -- exactly when every one of them names an object of the local store that has its digest and its
    -- size.
    pub reconcile_registry_artifacts-IsCheck :
        (mirror : Option (ArtifactStore S)) (db : Database) (s : S)
        → IsCheck db s (reconcile_registry_artifacts lib parts local mirror false db s)
    unfolding reconcile_registry_artifacts list_artifacts Outcomes.◌>>=◌
    reconcile_registry_artifacts-IsCheck mirror db s =
        let artifacts = order_by created_before db.artifacts in
        let t = tally none artifacts s in
        let (down, up) = reconcile_each_iff artifacts s in
        let (empty, filled) = no_issues_iff t.issues in
        record {
          report = report_of false artifacts t;
          returns =
              ap (λ x. returned (report_of false artifacts t, x))
                (reconcile_each-unchanged artifacts s);
          expected = length-order_by created_before db.artifacts;
          complete = reconcile_each-counts artifacts s;
          passes = (
            λ h a k. down (empty h) a (into-order_by created_before a db.artifacts k),
            λ h. filled (up (λ a k. h a (from-order_by created_before a db.artifacts k))),
          );
        }
