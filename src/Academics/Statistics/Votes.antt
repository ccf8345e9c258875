-- ===== src/Academics/Statistics/Votes.antt =====
-- academics/services.py, `_record_question_result`: one vote per student and question. The changes
-- in the counters over all answers of one student to one question.
use hamromentorback.Base.{
  ℕ, ◌≡◌, refl, ap, ◌∙◌, Bool, true, false, Option, none, some, List, [], ◌∷◌, ◌==◌, inl, inr,
  Bool-cases, ==→eq, if◌then◌else◌,
}
use hamromentorback.Base.Int.{ℤ, pos, negsuc, ◌+ℤ◌, int_laws}
use hamromentorback.Time.{Time}
use hamromentorback.Academics.Models.{QuestionAttempt, QuestionBankConfig}
use hamromentorback.Academics.Statistics.{
  Delta, Result, answered, first_some, delta_of, delta_for, vote_delta,
}

-- What the changes add to the pick count of an option.
abbrev pub added_to : ℕ → List (ℕ × ℤ) → ℤ
added_to option_id [] = pos 0
added_to option_id ((id, n) ∷ rest) =
    (if id == option_id then n else pos 0) +ℤ added_to option_id rest

abbrev pub picks_moved : ℕ → Option Delta → ℤ
picks_moved option_id none = pos 0
picks_moved option_id (some d) = added_to option_id d.option_deltas

abbrev pub total_moved : Option Delta → ℤ
total_moved none = pos 0
total_moved (some d) = d.total_delta

-- The vote of a student for an option: one for the option that is selected.
abbrev pub vote_for : ℕ → Option ℕ → ℤ
vote_for option_id none = pos 0
vote_for option_id (some id) = if id == option_id then pos 1 else pos 0

abbrev pub voted : Option ℕ → ℤ
voted none = pos 0
voted (some id) = pos 1

unmoved : (x : ℤ) → x ≡ x +ℤ pos 0
unmoved x = grind int_laws

first_vote : (x : ℤ) → x ≡ pos 0 +ℤ (x +ℤ pos 0)
first_vote x = grind int_laws

moved_vote :
    (here : Bool) (x : ℤ)
    → x ≡ (if here then pos 1 else pos 0) +ℤ (x +ℤ ((if here then negsuc 0 else pos 0) +ℤ pos 0))
moved_vote true x = grind int_laws
moved_vote false x = grind int_laws

picks-step :
    (option_id : ℕ) (chosen previous : Option ℕ) (was_correct : Bool) (r : Result)
    → vote_for option_id (first_some chosen previous)
      ≡ vote_for option_id previous
        +ℤ picks_moved option_id (delta_for chosen previous was_correct r)
unfolding first_some delta_for delta_of
picks-step o none previous was_correct r = unmoved (vote_for o previous)
picks-step o (some c) none was_correct r = first_vote (vote_for o (some c))
picks-step o (some c) (some p) was_correct r = elim (Bool-cases (c == p)) [
  | inl same ↦
      let e = ==→eq c p same in
      simp (same) (ap (λ i. vote_for o (some i)) e ∙ unmoved (vote_for o (some p)))
  | inr other ↦ simp (other) (moved_vote (p == o) (vote_for o (some c)))
]

total-step :
    (chosen previous : Option ℕ) (was_correct : Bool) (r : Result)
    → voted (first_some chosen previous)
      ≡ voted previous +ℤ total_moved (delta_for chosen previous was_correct r)
unfolding first_some delta_for delta_of ◌+ℤ◌
total-step none previous was_correct r = unmoved (voted previous)
total-step (some c) none was_correct r = refl
total-step (some c) (some p) was_correct r = elim (Bool-cases (c == p)) [
  | inl same ↦ simp (same) refl
  | inr other ↦ simp (other) refl
]

-- The row of a student after answers to the question, in their order.
pub after_answers : QuestionBankConfig → List (Time × Result) → QuestionAttempt → QuestionAttempt
after_answers config [] a = a
after_answers config ((now, r) ∷ rest) a = after_answers config rest (answered now config r a)

-- What these answers add to the picks of an option and to the count of attempts of the question.
pub sum_picks : ℕ → QuestionBankConfig → List (Time × Result) → QuestionAttempt → ℤ
sum_picks option_id config [] a = pos 0
sum_picks option_id config ((now, r) ∷ rest) a =
    picks_moved option_id (vote_delta r a)
    +ℤ sum_picks option_id config rest (answered now config r a)

pub sum_total : QuestionBankConfig → List (Time × Result) → QuestionAttempt → ℤ
sum_total config [] a = pos 0
sum_total config ((now, r) ∷ rest) a =
    total_moved (vote_delta r a) +ℤ sum_total config rest (answered now config r a)

assoc : (a b c d : ℤ) → b ≡ a +ℤ c → b +ℤ d ≡ a +ℤ (c +ℤ d)
assoc a b c d h = grind int_laws

-- However often a student answers a question, skipping it or moving between its options, all changes
-- together count one vote: an option has one pick more than before the answers if it is selected
-- after them and was not before, one less if it was and is not, and the question counts the student
-- once, from the first option that is selected.
pub one_vote :
    (option_id : ℕ) (config : QuestionBankConfig) (answers : List (Time × Result))
    (a : QuestionAttempt)
    → (vote_for option_id (after_answers config answers a).selected_option
        ≡ vote_for option_id a.selected_option +ℤ sum_picks option_id config answers a)
      × (voted (after_answers config answers a).selected_option
          ≡ voted a.selected_option +ℤ sum_total config answers a)
unfolding after_answers sum_picks sum_total answered vote_delta
one_vote o config [] a = (unmoved (vote_for o a.selected_option), unmoved (voted a.selected_option))
one_vote o config ((now, r) ∷ rest) a =
    let next = answered now config r a in
    let (picks, total) = one_vote o config rest next in
    (
      picks
          ∙ assoc _ _ _ (sum_picks o config rest next)
              (picks-step o r.selected_option a.selected_option a.is_correct r),
      total
          ∙ assoc _ _ _ (sum_total config rest next)
              (total-step r.selected_option a.selected_option a.is_correct r),
    )
