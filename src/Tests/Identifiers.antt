-- ===== src/Tests/Identifiers.antt =====
-- One identifier.
use sdp_studio.Prelude.{◌+◌, ◌*◌, ◌%◌, ◌^◌, ◌≡◌, refl, false, arith}
use sdp_studio.Identifiers.{codes, new_ulid, is_ulid}
use sdp_studio.Identifiers.Spelling.{number, new_ulid-number}

small_runs : new_ulid 0 33 ≡ codes "00000000000000000000000011"
unfolding new_ulid codes
small_runs = refl

-- The letter U is not in the alphabet.
letter_refused : is_ulid (codes "0000000000000000000000000U") ≡ false
unfolding is_ulid codes
letter_refused = refl

new_ulid-number_example :
    number 0 (new_ulid 1700000000000 12345) ≡ (1700000000000 % 2 ^ 48) * 2 ^ 80 + 12345
new_ulid-number_example = new_ulid-number 1700000000000 12345 (omega arith)
