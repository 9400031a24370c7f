-- ===== src/Tests/MessageId.antt =====
-- message/id.go: an identifier that is made in 2020.
use unitdb.Prelude.{◌^◌, ◌≡◌, ◌&&◌, ◌||◌, not, some, ltb, leb, ◌==◌, arith}
use unitdb.MessageId.{new_id, sequence, set_contract, eval_prefix, eval_prefix-new_id}

eval_prefix-new_id_example :
    (sequence (set_contract (new_id 1600000000 300) 77) ≡ some 300)
    × (eval_prefix (set_contract (new_id 1600000000 300) 77) 77 1599999999
        ≡ some (
            (77 == 77)
            && (not (ltb 0 1599999999 && ltb 1599999999 (2 ^ 63)) || leb 1599999999 1600000000)))
eval_prefix-new_id_example =
    eval_prefix-new_id 1600000000 300 77 77 1599999999 (omega arith) (omega arith) (omega arith)
      (omega arith)
