-- ===== src/Tests/Review.antt =====
-- The decision of an administrator on the transaction of the tests.
use settlr.Prelude.{some}
use settlr.Fraud.Review.{Reviewer}

abbrev reviewer : Reviewer
reviewer = record { canon = λ i. some i; now = 8 }
