-- ===== src/Tests/Expiry.antt =====
-- expiry_window.go: a bucket with one entry that has expired, and one that has not.
use unitdb.Prelude.{◌≡◌, refl, true, some, [], ◌∷◌}
use unitdb.Hash.Consistent.{init_consistent}
use unitdb.Window.{WinEntry}
use unitdb.Expiry.{ExpiryWindowBucket, get_expired_entries}

abbrev old : WinEntry
old = record { sequence = 12; expires_at = 30 }

abbrev young : WinEntry
young = record { sequence = 14; expires_at = 2000 }

abbrev bucket : ExpiryWindowBucket
bucket = record {
  expiry = ((60, old ∷ young ∷ []) ∷ []) ∷ [];
  consistent = init_consistent 1 1;
  exp_duration = 60;
  max_exp_durations = 1;
  background_key_expiry = true;
  earliest_expiry_hash = 60;
}

-- The window stays, as one of its entries has not expired.
bucket_runs :
    get_expired_entries bucket 1000 10 ≡ some (record bucket { earliest_expiry_hash = 0 }, old ∷ [])
unfolding get_expired_entries
bucket_runs = refl
