-- ===== src/Registry/Labelled.antt =====
-- After `settle_labels` of src/edgar_moe/forward/registry.py has returned, the forecast of every
-- draft has a label.
use edgar_moe.Common.{
  String, ◌≡◌, refl, sym, ◌∙◌, none, List, [], ◌∷◌, ◌++◌, string_eq, get, Has, Has-append,
  get-append_none, Extends, Extends-refl, Extends-append, Extends-trans, All, subst,
}
use edgar_moe.Registry.Records.{Instant, LabelDraft, LabelRecord, Database}
use edgar_moe.Registry.Session.{ForwardRegistry, Moment, audit}
use edgar_moe.Registry.Batches.{BatchCounts, counted, no_counts, each, settle_label, settle_labels}
use edgar_moe.Registry.Rules.{
  Post, Post-pure, Post-bind, Post-gets, Post-or_raise, Post-require, Post-if_existing, Post-unless,
  Post-weaken,
}
use edgar_moe.Registry.Advance.Parts.{Post-assert_same, Post-require_running_type}

abbrev pub HasLabel : String → Database → Type 0
HasLabel forecast_id db = Has (λ (r : LabelRecord). r.forecast_id) forecast_id db.labels

abbrev pub LabelsGrow : Database → Database → Type 0
LabelsGrow old new = Extends old.labels new.labels

pub HasLabel-LabelsGrow :
    (k : String) (old new : Database) → LabelsGrow old new → HasLabel k old → HasLabel k new
HasLabel-LabelsGrow k old new (added, e) h =
    subst (λ l. Has (λ (r : LabelRecord). r.forecast_id) k l) (sym e)
      (Has-append (λ (r : LabelRecord). r.forecast_id) k old.labels added h)

Has-snoc :
    (k : String) (rs : List LabelRecord) (row : LabelRecord)
    → get (λ (r : LabelRecord). r.forecast_id) k rs ≡ none
    → row.forecast_id ≡ k
    → Has (λ (r : LabelRecord). r.forecast_id) k (rs ++ row ∷ [])
Has-snoc k rs row absent e = (
  row,
  get-append_none (λ (r : LabelRecord). r.forecast_id) k rs (row ∷ []) absent
      ∙ rw ((string_eq.same_iff row.forecast_id k).1 e) refl,
)

-- What one draft adds, and what all of them do.
abbrev Labels : Database → LabelDraft → Database → Type 0
Labels db d db' = LabelsGrow db db' × HasLabel d.forecast_id db'

abbrev pub AllLabelled : List LabelDraft → Database → Type 0
AllLabelled ds db = All (λ (d : LabelDraft). HasLabel d.forecast_id db) ds

module _ (self : ForwardRegistry) (m : Moment) (run_id : String) where
  settle_label-Labels :
      (as_of : Instant) (d : LabelDraft) (db : Database)
      → Post (λ _. Labels db d) (settle_label self m run_id as_of d db)
  unfolding settle_label
  settle_label-Labels as_of d db = Post-gets _ _ _ db (
      Post-or_raise _ _ _ _ db λ _ _. Post-require _ _ _ _ db λ _. Post-require _ _ _ _ db λ _.
        Post-gets _ _ _ db (
          Post-or_raise _ _ _ _ db λ _ _. Post-gets _ _ _ db (
            Post-if_existing _ _ _ _ db
              (λ row found.
                Post-assert_same _ _ _ _ _ _ db
                  λ same. Post-pure _ _ db (Extends-refl db.labels, (row, found)))
              λ absent.
                Post-bind _ (λ _. Labels db d) _ _ db
                  (Post-unless (λ _. Labels db d) _ _ _ _
                    (Extends-append db.labels _, Has-snoc d.forecast_id db.labels _ absent refl))
                  λ _ db' h. Post-pure _ _ db' h)))

  each-Labels :
      (as_of : Instant) (ds : List LabelDraft) (c : BatchCounts) (db : Database)
      → Post
          (λ _ db'. LabelsGrow db db' × AllLabelled ds db')
          (each (settle_label self m run_id as_of) ds c db)
  unfolding each
  each-Labels as_of [] c db = Post-pure _ c db (Extends-refl db.labels, tt)
  each-Labels as_of (d ∷ ds) c db =
      Post-bind _ (λ _. Labels db d) _ _ db (settle_label-Labels as_of d db)
        λ added db1 (g, h).
          Post-weaken (λ _ db'. LabelsGrow db db' × AllLabelled (d ∷ ds) db')
            (λ _ db'. LabelsGrow db1 db' × AllLabelled ds db') _
            (λ _ db2 (g2, h2).
              (Extends-trans db.labels g g2, (HasLabel-LabelsGrow d.forecast_id db1 db2 g2 h, h2)))
            (each-Labels as_of ds (counted added c) db1)

  pub settle_labels-AllLabelled :
      (labels : List LabelDraft) (db : Database)
      → Post (λ _. AllLabelled labels) (settle_labels self m run_id labels db)
  unfolding settle_labels audit
  settle_labels-AllLabelled labels db = Post-require_running_type _ run_id _ _ db λ run found typed.
      Post-bind _ (λ _ db'. LabelsGrow db db' × AllLabelled labels db') _ _ db
        (each-Labels run.as_of labels no_counts db)
        λ c db1 (g, h).
          Post-bind _ (λ _. AllLabelled labels) _ _ db1
            (Post-unless (λ _. AllLabelled labels) _ _ _ _ h) λ _ db2 h2. Post-pure _ c db2 h2
