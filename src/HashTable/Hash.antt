-- ===== src/HashTable/Hash.antt =====
-- The default hash function.
use os_solutions.Prelude.{ℕ, ◌<◌, arith, Bytes}
use os_solutions.HashTable.{jenkins_one_at_a_time_hash}

-- The default hash of any key is an index into a table of any positive size.
pub jenkins_one_at_a_time_hash-lt :
    (key : Bytes) (ht_size : ℕ) → 0 < ht_size → jenkins_one_at_a_time_hash key ht_size < ht_size
unfolding jenkins_one_at_a_time_hash
jenkins_one_at_a_time_hash-lt key ht_size h = grind arith
