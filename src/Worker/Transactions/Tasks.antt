-- ===== src/Worker/Transactions/Tasks.antt =====
-- Every request and task, run without interruption, is a sequence of transactions.
use rubigram.Worker.Db.{Db}
use rubigram.Worker.Transactions.{nonce as save_nonce}
use rubigram.Worker.Transactions.Runs.{Runs}
use rubigram.Worker.Steps.{nonce}
