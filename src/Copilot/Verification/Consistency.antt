-- ===== src/Copilot/Verification/Consistency.antt =====
-- How the checks of src/edgar_moe/copilot/verification.py on a trace and on citations behave as both
-- grow.
use edgar_moe.Common.{
  leb_of_le, add_suc, add_zero, ℕ, suc, ◌+◌, ◌≤◌, String, Bool, true, false, ◌&&◌, ◌||◌, ◌≡◌, refl,
  sym, ◌∙◌, subst, inl, inr, List, [], ◌∷◌, ◌++◌, ◌==◌, if◌then◌else◌, string_eq, nat_eq, ltb,
  length, All, Bool-cases, arith,
}
use edgar_moe.Common.Outcomes.{
  Outcome, returned, raised, ◌>>=◌, ensure, ensure-bind, ensure_holds, returned-bind,
}
use edgar_moe.Copilot.Contracts.{Citation, ToolDefinition, ToolTrace, grounded, uncited}
use edgar_moe.Copilot.Agent.{is_empty, any_name, cited, unique_after, unique_citations}
use edgar_moe.Copilot.Texts.{one_of, is_digest, is_tool_name}
use edgar_moe.Copilot.Verification.{
  read_only_tools, max_citations, verify_item, verify_items, is_evidence_item, any_evidence,
  any_uncounted, citation_total, verify_evidence, VerificationError,
}

one_of-All :
    (P : String → Type 0) (name : String) (names : List String)
    → All P names
    → one_of name names ≡ true
    → P name
one_of-All P name [] a h = cc h
one_of-All P name (n ∷ ns) a h = elim (Bool-cases (name == n)) [
  | inl same ↦ subst P (sym ((string_eq.same_iff name n).0 same)) a.0
  | inr other ↦ one_of-All P name ns a.1 (rw other at h)
]

pub any_name-All :
    (P : String → Type 0) (name : String) (ds : List ToolDefinition)
    → All (λ d. P d.name) ds
    → any_name name ds ≡ true
    → P name
any_name-All P name [] a h = cc h
any_name-All P name (d ∷ ds) a h = elim (Bool-cases (d.name == name)) [
  | inl same ↦ subst P ((string_eq.same_iff d.name name).0 same) a.0
  | inr other ↦ any_name-All P name ds a.1 (rw other at h)
]

-- Each name of the list has the form of a tool's name.
pub read_only-IsToolName :
    (name : String) → one_of name read_only_tools ≡ true → is_tool_name name ≡ true
unfolding is_tool_name
read_only-IsToolName name h =
    one_of-All (λ n. is_tool_name n ≡ true) name read_only_tools
      (refl, (refl, (refl, (refl, (refl, (refl, (refl, (refl, (refl, (refl, tt)))))))))) h

pub verify_item-holds :
    (k : ℕ) (item : ToolTrace)
    → item.call_index ≡ k
    → one_of item.name read_only_tools ≡ true
    → is_digest item.arguments_sha256 ≡ true
    → is_digest item.result_sha256 ≡ true
    → item.citation_count ≤ max_citations
    → verify_item k item ≡ returned tt
unfolding verify_item
verify_item-holds k item index listed arguments result few =
    ensure-bind _ _ _ ((nat_eq.same_iff item.call_index k).1 index)
    ∙ ensure-bind _ _ _ (read_only-IsToolName item.name listed)
    ∙ ensure-bind _ _ _ listed
    ∙ ensure-bind _ _ _ arguments
    ∙ ensure-bind _ _ _ result
    ∙ ensure_holds _ _ (leb_of_le item.citation_count max_citations few)

-- A last check that holds may be put behind checks that hold.
behind :
    (m a b : Outcome VerificationError (Unit {0}))
    → (m >>= λ _. a) ≡ returned tt
    → (a ≡ returned tt → b ≡ returned tt)
    → (m >>= λ _. b) ≡ returned tt
unfolding ◌>>=◌
behind (returned tt) a b h k = k h
behind (raised e) a b h k = cc h

pub verify_items-snoc :
    (k : ℕ) (xs : List ToolTrace) (x : ToolTrace)
    → verify_items k xs ≡ returned tt
    → verify_item (k + length xs) x ≡ returned tt
    → verify_items k (xs ++ x ∷ []) ≡ returned tt
unfolding verify_items
verify_items-snoc k [] x h e =
    returned-bind (verify_item k x) _ (subst (λ n. verify_item n x ≡ returned tt) (add_zero k) e)
verify_items-snoc k (y ∷ ys) x h e = behind (verify_item k y) _ _ h λ rest.
    verify_items-snoc (suc k) ys x rest
      (subst (λ n. verify_item n x ≡ returned tt) (add_suc k (length ys)) e)

pub any_uncounted-snoc :
    (xs : List ToolTrace) (x : ToolTrace)
    → any_uncounted xs ≡ false
    → (is_evidence_item x && x.citation_count == 0) ≡ false
    → any_uncounted (xs ++ x ∷ []) ≡ false
any_uncounted-snoc [] x h e = rw e refl
any_uncounted-snoc (y ∷ ys) x h e =
    elim (Bool-cases (is_evidence_item y && y.citation_count == 0)) [
      | inl bad ↦ cc (rw bad at h)
      | inr good ↦ rw good (any_uncounted-snoc ys x (rw good at h) e)
    ]

pub citation_total-snoc :
    (xs : List ToolTrace) (x : ToolTrace)
    → citation_total (xs ++ x ∷ []) ≡ citation_total xs + x.citation_count
citation_total-snoc [] x = omega arith
citation_total-snoc (y ∷ ys) x = omega (arith, citation_total-snoc ys x)

or_false : (a b : Bool) → (a || b) ≡ false → (a ≡ false) × (b ≡ false)
or_false a b h = ground arith

and_false : (a b : Bool) → (a && b) ≡ false → b ≡ true → a ≡ false
and_false a b h k = ground arith

-- Without citations no tool has given evidence.
no_evidence :
    (xs : List ToolTrace)
    → any_uncounted xs ≡ false
    → citation_total xs ≡ 0
    → any_evidence xs ≡ false
no_evidence [] h e = refl
no_evidence (x ∷ xs) h e =
    let zero_here : x.citation_count ≡ 0 = omega (arith, e) in
    let zero_later : citation_total xs ≡ 0 = omega (arith, e) in
    let (none_here, none_later) = or_false _ _ h in
    let here : is_evidence_item x ≡ false =
      and_false _ _ none_here ((nat_eq.same_iff x.citation_count 0).1 zero_here) in
    rw (here, no_evidence xs none_later zero_later) refl

length-unique_after : (seen cs : List Citation) → length (unique_after seen cs) ≤ length cs
length-unique_after seen [] = omega arith
length-unique_after seen (c ∷ cs) = elim (Bool-cases (cited c seen)) [
  | inl again ↦ rw again (omega (arith, length-unique_after seen cs))
  | inr new ↦ rw new (omega (arith, length-unique_after (c ∷ seen) cs))
]

not_less : (a b : ℕ) → b ≤ a → ltb a b ≡ false
not_less a b h = ground arith

pub verify_evidence-holds :
    (cs : List Citation) (trace : List ToolTrace)
    → citation_total trace ≡ length cs
    → any_uncounted trace ≡ false
    → verify_evidence (if is_empty cs then uncited else grounded) (unique_citations cs) trace
      ≡ returned tt
unfolding verify_evidence ◌>>=◌ ensure
verify_evidence-holds [] trace total counted =
    rw (no_evidence trace counted total, total, counted) refl
verify_evidence-holds (c ∷ cs) trace total counted =
    rw
      (
        not_less (citation_total trace) (length (unique_citations (c ∷ cs)))
            (omega (arith, total, length-unique_after [] (c ∷ cs))),
        counted,
      )
      refl
