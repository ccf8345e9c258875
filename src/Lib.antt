-- ===== src/Lib.antt =====
-- Hamro Mentor, the service behind a platform for medical entrance exams: who may see, start, continue
-- and review an exam, what a payment gives and what a refund takes back.
--
-- The parts and how they interact. An administrator publishes a test (tests_app/models.py) to
-- courses, batches or students; a session or the test's own window says when it runs
-- (tests_app/lifecycle.py). A request goes through entitlements/services.py, which asks
-- tests_app/access.py for the academic side, billing/access.py for what the student has paid and
-- entitlements/provisioning.py for the free allocation, in that order, and answers with a decision
-- and a reason. The endpoints of tests_app/views.py start an attempt, take its answers and close it;
-- tests_app/lifecycle.py freezes its questions, scores it once, and sweeps what nobody closes. Every
-- scored answer is recorded by academics/services.py, which keeps one vote per student and question
-- and hands the changes of the counters to tests_app/stats_tasks.py. billing/payment_service.py moves a purchase through its states and writes the
-- subscriptions, grants and memberships that those checks read.
--
-- Which file models which part:
--   Base        names, Boolean tests, tables as lists of rows, integers
--   Time        the clock
--   Texts       strings
--   Accounts    accounts/models.py, the user of a request
--   Courses     courses/access.py and the memberships of courses/models.py
--   Academics   Models: academics/models.py; Statistics: academics/services.py, the recorded answer, the
--               mastery and the counters; Batches: the deferred counters of academics/services.py and
--               tests_app/stats_tasks.py
--   Exams       Models: tests_app/models.py; Schedule: tests_app/lifecycle.py, the session status, the
--               deadline of an attempt, missed exams and the review window; Access:
--               tests_app/access.py; Frozen, Scoring, Lifecycle: the rest of
--               tests_app/lifecycle.py; Gates, Starting: _start_attempt of tests_app/views.py;
--               Answering: AttemptDetailView, SubmitAnswerView, MarkForReviewView and SubmitTestView
--   Billing     Models: plans, subscriptions and grants of billing/models.py; Access:
--               billing/access.py; Orders: purchases, coupons and the ledger of billing/models.py;
--               Activation, Products, Refunds, Payments: billing/payment_service.py;
--               Pricing: the checks and discounts of billing/models.py and billing/views.py
--   FreeStarter entitlements/models.py and entitlements/provisioning.py
--   Entitlements entitlements/services.py: Decision (the answer), Commercial, Start, Attempts,
--               Purchase
--   Tests       runs on small inputs, and each theorem at an input that meets its hypotheses
-- A function keeps its name, less a leading underscore. Its arguments are those of the source, with
-- the time and the tables that it reads in front; a function that writes returns the new tables.
--
-- How the code is read. A table is the list of its rows in the order of its model; `first` takes the
-- head of a query, `save` replaces the row with its key. `transaction.atomic` with row locks makes
-- a call one step, so calls that overlap are one after the other. billing/access.py's consume_quota
-- has no lock: Billing/Access/Overlaps has its query and its save as two steps, between which those of
-- other calls may come, and the start of an attempt takes it as a call with nothing between. An exception is an error value
-- that carries no tables, since the transaction is rolled back. An instant is a number of
-- microseconds from the first day that `datetime` has; one below it raises, the last day is not a
-- bound of the model. Every reading of the clock in one call gives the same time. Texts are lists of
-- code points; widths of columns are the database's. Keys of created rows come from one counter.
-- All loops are over rows that are there, so nothing runs on fuel; the three tries of a batch are
-- counted down. In exams an exception is `none`, and a refusal is a value of Response. Marks, scores and
-- percentages are integers in hundredths and quotients are rounded half to even, where the source has
-- floats. Prices are in millionths. What random.shuffle makes of a list, what the database raises
-- at a try and the letter cases of Unicode are parameters.
--
-- Not modelled: the serializers and the other endpoints, the creation of an order, smart practice,
-- imports, reports, notifications, storage and mail. The upload of a payment's screenshot is
-- an argument, the key that it stored or that it raised. The queue of tasks, the sentence that goes
-- with a reason code, letters to the student, passwords of accounts and network addresses are left
-- out. The answer to a request that meets a locked row is left out, as a call has its locks.
pub mod Base
pub mod Time
pub mod Texts
pub mod Accounts
pub mod Courses
pub mod Academics
pub mod Exams
pub mod Billing
pub mod FreeStarter
pub mod Entitlements
mod Tests
