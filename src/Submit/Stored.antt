-- ===== src/Submit/Stored.antt =====
-- app/submit.py and app/audit/store.py: a submission that was written, and its replay by id.
use decision_ledger.Submission.{Submission}
