-- ===== src/Hash.antt =====
-- hash/: the Jenkins generator and the modulo reduction (rand.go, modulo.go), salted hashes
-- (hash.go), and the consistent hash that spreads keys over shards (consistent.go).
pub mod Flea
pub mod Consistent
pub mod Text
