-- ===== src/Exams/Starting/Single.antt =====
-- tests_app/views.py, `_start_attempt`: how many attempts of a student are open at a time.
use hamromentorback.Base.{
  ℕ, suc, ◌≤◌, ◌<◌, ◌≡◌, refl, sym, ap, subst, ◌∙◌, Bool, true, ◌&&◌, Option, none, some, List,
  ◌==◌, arith, inl, inr, Bool-cases, ==→eq, leb, length, select, find_first, find_first_sound,
  find-own_key, update_by, count_by, count_by-none, count_by-save, All, All-map, All-find, All-save,
  Unique, Unique-save, if-either,
}
use mathlib.Core.Option.{some_inj}
use hamromentorback.Time.{Time}
use hamromentorback.Accounts.{User}
use hamromentorback.Exams.Models.{Test, ExamSession, is_in_progress, TestAttempt}
use hamromentorback.Exams.Lifecycle.{
  Db, is_expired_in, finalize_attempt, ensure_finalized_if_expired,
}
use hamromentorback.Exams.Lifecycle.Once.{Finalized, already, now_closed, finalize_effect}
use hamromentorback.Base.{bind-eq-some}
use hamromentorback.Exams.Gates.{Response, resumed, session_key, is_attempt_at}
use hamromentorback.Exams.Starting.{
  new_attempt, attempt_limit, create_attempt, begin, resume, locked_start,
}
use hamromentorback.Exams.Starting.Counts.{
  not_running, below_suc, below_later, below_apart, one_more, both_left, both_right, at_keys,
  count-closed,
}

-- An open attempt of the student at the test and in the session.
abbrev pub is_running : ℕ → ℕ → Option ℕ → TestAttempt → Bool
is_running user test session a = is_attempt_at user test session a && is_in_progress a.status

abbrev pub running_count : ℕ → ℕ → Option ℕ → Db → ℕ
running_count user test session db = count_by (is_running user test session) db.attempts

-- The keys of attempts are below the next key and differ, and of each student, test and session at
-- most one attempt is open.
pub record IsSingle (db : Db) : Type 0 where
  pub below : All (λ a. a.id < db.next_id) db.attempts
  pub keyed : Unique (λ a. a.id) db.attempts
  pub single : (user test : ℕ) (session : Option ℕ) → running_count user test session db ≤ 1

Finalized-IsSingle :
    (auto : Bool) (id : ℕ) (db : Db) (row : TestAttempt) (out : Db)
    → Finalized auto id db row out
    → IsSingle db
    → IsSingle out
Finalized-IsSingle auto id db row out (already _ _ same) s = subst IsSingle (sym same) s
Finalized-IsSingle auto id db row out (now_closed locked found key _ over same saved) s = record {
  below =
      let locked_below =
        All-find (λ a. a.id < db.next_id) (λ a. a.id == id) db.attempts s.below found in
      let locked_id = ==→eq locked.id id (find_first_sound (λ a. a.id == id) db.attempts found) in
      let row_below : row.id < db.next_id =
        subst (λ n. n < db.next_id) (locked_id ∙ sym key) locked_below in
      rw (saved, same.5)
        (All-save (λ a. a.id < db.next_id) (λ r. r.id == row.id) row db.attempts row_below s.below);
  keyed =
      subst (Unique (λ a. a.id)) (sym saved)
        (Unique-save (λ a. a.id) row.id row db.attempts refl s.keyed);
  single = λ user test session.
      let fewer =
        count_by-save (is_running user test session) (λ r. r.id == row.id) row db.attempts
          (not_running (is_attempt_at user test session row) (is_in_progress row.status) over) in
      let before = s.single user test session in
      rw (ap (count_by (is_running user test session)) saved) (omega (arith, fewer, before));
}

-- The new attempt is the only one that is open.
new-IsSingle :
    (shuffled : List ℕ → List ℕ) (now : Time) (user : User) (test : Test)
    (session : Option ExamSession) (n : ℕ) (db : Db)
    → IsSingle db
    → running_count user.id test.id (session_key session) db ≡ 0
    → IsSingle (create_attempt shuffled now user test session n db).1
unfolding create_attempt new_attempt
new-IsSingle shuffled now user test session n db s free = record {
  below =
      (below_suc db.next_id, All-map (λ a h. below_later a.id db.next_id h) db.attempts s.below);
  keyed = (All-map (λ a h. below_apart a.id db.next_id h) db.attempts s.below, s.keyed);
  single = λ u t k.
      let a = new_attempt now db.next_id user.id test (session_key session) (suc n) in
      one_more (is_running u t k a) (running_count u t k db) (s.single u t k) (λ own.
        let (et, eu, ek) =
          at_keys u t k a (both_left (is_attempt_at u t k a) (is_in_progress a.status) own) in
        rw (sym et, sym eu, sym ek) free);
}

-- Where no attempt is open: the answer to a request is a new attempt, or that there were too many.
begin-IsSingle :
    (shuffled : List ℕ → List ℕ) (now : Time) (user : User) (test : Test)
    (session : Option ExamSession) (db : Db)
    → IsSingle db
    → running_count user.id test.id (session_key session) db ≡ 0
    → IsSingle (begin shuffled now user test session db).1
unfolding begin
begin-IsSingle shuffled now user test session db s free =
    let n = length (select (is_attempt_at user.id test.id (session_key session)) db.attempts) in
    elim (Bool-cases (leb (attempt_limit test session) n)) [
      | inl full ↦ rw full s
      | inr room ↦ rw room (new-IsSingle shuffled now user test session n db s free)
    ]

free_after_close :
    (auto : Bool) (user test : ℕ) (session : Option ℕ) (db : Db) (a row : TestAttempt) (out : Db)
    → IsSingle db
    → find_first (is_running user test session) db.attempts ≡ some a
    → Finalized auto a.id db row out
    → running_count user test session out ≡ 0
free_after_close auto user test session db a row out s open_row (already found over _) =
    let own =
      find-own_key (is_running user test session) (λ r. r.id) db.attempts s.keyed open_row in
    let running =
      both_right (is_attempt_at user test session a) (is_in_progress a.status)
        (find_first_sound (is_running user test session) db.attempts open_row) in
    let same : row ≡ a = some_inj.0 (sym found ∙ own) in
    cc (over, ap (λ r. is_in_progress r.status) same, running)
free_after_close auto user test session db a row out s open_row
      (now_closed _ _ key _ over _ saved) =
    let p_row =
      not_running (is_attempt_at user test session row) (is_in_progress row.status) over in
    let none_left =
      count-closed (is_running user test session) row db.attempts open_row
        (s.single user test session) p_row in
    ap (count_by (is_running user test session)) saved
    ∙ ap
        (λ k.
          count_by (is_running user test session)
            (update_by (λ r. r.id == k) (λ _. row) db.attempts))
        key
    ∙ none_left

resume-IsSingle :
    (shuffled : List ℕ → List ℕ) (now : Time) (user : User) (test : Test)
    (session : Option ExamSession) (a : TestAttempt) (db : Db) (r : Response) (out : Db)
    → IsSingle db
    → find_first (is_running user.id test.id (session_key session)) db.attempts ≡ some a
    → resume shuffled now user test session (some a) db ≡ some (r, out)
    → IsSingle out
unfolding resume ensure_finalized_if_expired
resume-IsSingle shuffled now user test session a db r out s open_row h =
    let ((row, mid), ensured, h1) = bind-eq-some (ensure_finalized_if_expired now a db) _ h in
    let (expired, _, h2) = bind-eq-some (is_expired_in now a db) _ ensured in
    let running =
      both_right (is_attempt_at user.id test.id (session_key session) a) (is_in_progress a.status) (
        find_first_sound (is_running user.id test.id (session_key session)) db.attempts open_row) in
    elim (if-either expired (finalize_attempt now true a.id db) (some (a, db)) h2) [
      | inl finalized ↦
          let effect = finalize_effect now true a.id db finalized in
          let s' = Finalized-IsSingle true a.id db row mid effect s in
          let free =
            free_after_close true user.id test.id (session_key session) db a row mid s open_row
              effect in
          elim (if-either (is_in_progress row.status) _ _ (some_inj.0 h1)) [
            | inl e ↦ subst IsSingle (ap (λ x. x.1) e) s'
            | inr e ↦
                subst IsSingle (ap (λ x. x.1) e)
                  (begin-IsSingle shuffled now user test session mid s' free)
          ]
      | inr same ↦
          let pair : (a, db) ≡ (row, mid) = some_inj.0 same in
          let still = sym (ap (λ x. is_in_progress x.0.status) pair) ∙ running in
          let answer = some_inj.0 h1 in
          let resumed_it : (resumed row, mid) ≡ (r, out) = rw still at answer in
          subst IsSingle (ap (λ x. x.1) pair ∙ ap (λ x. x.1) resumed_it) s
    ]

resume_any :
    (shuffled : List ℕ → List ℕ) (now : Time) (user : User) (test : Test)
    (session : Option ExamSession) (o : Option TestAttempt) (db : Db) (r : Response) (out : Db)
    → IsSingle db
    → find_first (is_running user.id test.id (session_key session)) db.attempts ≡ o
    → resume shuffled now user test session o db ≡ some (r, out)
    → IsSingle out
unfolding resume
resume_any shuffled now user test session none db r out s open_row h =
    let free =
      count_by-none (is_running user.id test.id (session_key session)) db.attempts open_row in
    subst IsSingle (ap (λ x. x.1) (some_inj.0 h))
      (begin-IsSingle shuffled now user test session db s free)
resume_any shuffled now user test session (some a) db r out s open_row h =
    resume-IsSingle shuffled now user test session a db r out s open_row h

-- Starting an attempt keeps at most one attempt of every student open at each test in each session:
-- the one that is open is resumed, or closed before the next begins. The keys of attempts stay
-- different and below the next key.
pub locked_start-IsSingle :
    (shuffled : List ℕ → List ℕ) (now : Time) (user : User) (test : Test)
    (session : Option ExamSession) (db : Db) (r : Response) (out : Db)
    → IsSingle db
    → locked_start shuffled now user test session db ≡ some (r, out)
    → IsSingle out
unfolding locked_start
locked_start-IsSingle shuffled now user test session db r out s h =
    resume_any shuffled now user test session
      (find_first (is_running user.id test.id (session_key session)) db.attempts) db r out s refl h
