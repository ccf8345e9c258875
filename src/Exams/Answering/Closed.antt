-- ===== src/Exams/Answering/Closed.antt =====
-- tests_app/views.py and tests_app/lifecycle.py: what the requests of students and the sweep do to an
-- attempt that is closed.
use hamromentorback.Base.{
  ℕ, ◌≡◌, ◌≢◌, refl, sym, ap, subst, ◌∙◌, Bool, true, false, some, List, ◌==◌, arith, inl, inr,
  Bool-cases, ==→eq, ==→neq, neq→==, if-either, any, Unique, Unique-save, select-update_other,
}
use mathlib.Core.Option.{some_inj}
use hamromentorback.Time.{Time}
use hamromentorback.Exams.Models.{is_in_progress, TestAttempt}
use hamromentorback.Exams.Frozen.{Answer, answers_of}
use hamromentorback.Exams.Lifecycle.{
  Db, find_attempt, find_test, is_expired_in, finalize_attempt, ensure_finalized_if_expired,
}
use hamromentorback.Exams.Lifecycle.Once.{
  Finalized, already, now_closed, finalize_effect, Finalized-keeps, Finalized-same, finalize_closed,
}
use hamromentorback.Base.{bind-eq-some}
use hamromentorback.Exams.Answering.{is_answer, update_or_create, blank_answer}

-- The rows keep their keys apart; a closed attempt is the same row, with the same answers.
pub record Preserves (db out : Db) : Type 0 where
  pub unique : Unique (λ r. r.id) out.attempts
  pub closed_kept :
      (k : ℕ) (a : TestAttempt)
      → find_attempt k db.attempts ≡ some a
      → is_in_progress a.status ≡ false
      → (find_attempt k out.attempts ≡ some a)
        × (answers_of k out.answers ≡ answers_of k db.answers)

abbrev pub IsKeyed : Db → Type 0
IsKeyed db = Unique (λ r. r.id) db.attempts

pub Preserves-refl : (db : Db) → IsKeyed db → Preserves db db
Preserves-refl db u = record { unique = u; closed_kept = λ k a found over. (found, refl) }

pub Preserves-trans : (db mid out : Db) → Preserves db mid → Preserves mid out → Preserves db out
Preserves-trans db mid out p q = record {
  unique = q.unique;
  closed_kept = λ k a found over.
      let (found', same) = p.closed_kept k a found over in
      let (found'', same') = q.closed_kept k a found' over in (found'', same' ∙ same);
}

Finalized-unique :
    (auto : Bool) (id : ℕ) (db : Db) (row : TestAttempt) (out : Db)
    → Finalized auto id db row out
    → IsKeyed db
    → IsKeyed out
Finalized-unique auto id db row out (already _ _ same) u = subst IsKeyed (sym same) u
Finalized-unique auto id db row out (now_closed _ _ _ _ _ _ saved) u =
    subst (Unique (λ r. r.id)) (sym saved) (Unique-save (λ r. r.id) row.id row db.attempts refl u)

-- A closed attempt that is finalized again.
finalize_of_closed :
    (now : Time) (auto : Bool) (id : ℕ) (db : Db) (a : TestAttempt) {row : TestAttempt} {out : Db}
    → find_attempt id db.attempts ≡ some a
    → is_in_progress a.status ≡ false
    → finalize_attempt now auto id db ≡ some (row, out)
    → out ≡ db
unfolding finalize_attempt
finalize_of_closed now auto id db a {row} {out} found over h =
    let (locked, found', h1) = bind-eq-some (find_attempt id db.attempts) _ h in
    let (test, exam, _) = bind-eq-some (find_test locked.test_id db.tests) _ h1 in
    let e : locked ≡ a = some_inj.0 (sym found' ∙ found) in
    let exam' = ap (λ l. find_test l.test_id db.tests) (sym e) ∙ exam in
    let unchanged = finalize_closed now auto id db a test found over exam' in
    ap (λ x. x.1) (some_inj.0 (sym h ∙ unchanged))

pub finalize-Preserves :
    (now : Time) (auto : Bool) (id : ℕ) (db : Db) {row : TestAttempt} {out : Db}
    → IsKeyed db
    → finalize_attempt now auto id db ≡ some (row, out)
    → Preserves db out
finalize-Preserves now auto id db {row} {out} u h =
    let effect = finalize_effect now auto id db h in
    let same = Finalized-same auto id db row out effect in
    record {
      unique = Finalized-unique auto id db row out effect u;
      closed_kept = λ k a found over. (
        elim (Bool-cases (k == id)) [
          | inl hit ↦
              let e = ==→eq k id hit in
              let found' = ap (λ i. find_attempt i db.attempts) (sym e) ∙ found in
              let unchanged = finalize_of_closed now auto id db a found' over h in
              ap (λ d. find_attempt k d.attempts) unchanged ∙ found
          | inr miss ↦ Finalized-keeps auto id k db row out effect (==→neq k id miss) ∙ found
        ],
        ap (answers_of k) same.3,
      );
    }

pub ensure-Preserves :
    (now : Time) (a : TestAttempt) (db : Db) {row : TestAttempt} {out : Db}
    → IsKeyed db
    → ensure_finalized_if_expired now a db ≡ some (row, out)
    → Preserves db out
unfolding ensure_finalized_if_expired
ensure-Preserves now a db u h =
    let (expired, _, h1) = bind-eq-some (is_expired_in now a db) _ h in
    elim (if-either expired (finalize_attempt now true a.id db) (some (a, db)) h1) [
      | inl finalized ↦ finalize-Preserves now true a.id db u finalized
      | inr same ↦ subst (Preserves db) (ap (λ x. x.1) (some_inj.0 same)) (Preserves-refl db u)
    ]

elsewhere : (i j q : ℕ) (s : Answer) → is_answer i q s ≡ true → i ≢ j → (s.attempt_id == j) ≡ false
elsewhere i j q s h ne = ground arith

-- Writing an answer of one attempt leaves the answers of another alone.
answers_of-write :
    (i k q : ℕ) (f : Answer → Answer) (l : List Answer)
    → ((s : Answer) → (f s).attempt_id ≡ s.attempt_id)
    → i ≢ k
    → answers_of k (update_or_create i q f l) ≡ answers_of k l
unfolding update_or_create blank_answer
answers_of-write i k q f l keeps ne = elim (Bool-cases (any (is_answer i q) l)) [
  | inl there ↦ rw there (
      select-update_other (λ s. s.attempt_id == k) (is_answer i q) f l
        (λ s hit. let here = elsewhere i k q s hit ne in (here, ap (λ n. n == k) (keeps s) ∙ here)))
  | inr missing ↦
      let other = ap (λ n. n == k) (keeps (blank_answer i q)) ∙ neq→== i k ne in
      simp (missing, other)
]

-- An answer that is written in an open attempt.
pub write-Preserves :
    (a : TestAttempt) (q : ℕ) (f : Answer → Answer) (db : Db)
    → IsKeyed db
    → find_attempt a.id db.attempts ≡ some a
    → is_in_progress a.status ≡ true
    → ((s : Answer) → (f s).attempt_id ≡ s.attempt_id)
    → Preserves db (record db { answers = update_or_create a.id q f db.answers })
write-Preserves a q f db u found running keeps = record {
  unique = u;
  closed_kept = λ k c there over. (
    there,
    answers_of-write a.id k q f db.answers keeps (λ e.
        let same : c ≡ a =
          some_inj.0 (sym there ∙ ap (λ i. find_attempt i db.attempts) (sym e) ∙ found) in
        cc (over, ap (λ r. is_in_progress r.status) same, running)),
  );
}
