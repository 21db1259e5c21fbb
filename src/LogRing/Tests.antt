-- ===== src/LogRing/Tests.antt =====
-- Runs of the ring and of the redaction, and the theorems about them at concrete inputs.
use mender_rt1180_zephyr.Prelude.{ℕ, ◌≡◌, refl, true, List, [], ◌∷◌, ◌++◌, some, arith, replicate}
use mender_rt1180_zephyr.LogRing.{LogRing, write_locked, copy_from, start, snapshot}
use mender_rt1180_zephyr.LogRing.Order.{IsValid, contents, write_lem}
use mender_rt1180_zephyr.LogRing.Snapshot.{snapshot-write}
use mender_rt1180_zephyr.LogRing.Redact.{
  seek, mask, redact_inplace, has_creds, creds_here, bearer_here,
}
use mender_rt1180_zephyr.LogRing.Masking.{mask-bearer}
use mender_rt1180_zephyr.LogRing.Creds.{join, redact_inplace_hides}

-- A ring of four bytes that has gone round: it holds 2, 3, 4, 5.
abbrev wrapped : LogRing
wrapped = record {
  ring = 5 ∷ 2 ∷ 3 ∷ 4 ∷ [];
  ring_head = 1;
  ring_len = 4;
  ring_lines = 0;
  ring_ready = true;
}

wrapped-IsValid : IsValid 4 wrapped
wrapped-IsValid = omega arith

snapshot-wrapped : snapshot 4 wrapped (some 3) ≡ (2 ∷ 3 ∷ 0 ∷ [], 2)
unfolding snapshot copy_from
snapshot-wrapped = refl

write_lem_example :
    IsValid 4 (write_locked 4 wrapped (6 ∷ 7 ∷ []))
    × (contents 4 (write_locked 4 wrapped (6 ∷ 7 ∷ [])) ≡ 4 ∷ 5 ∷ 6 ∷ 7 ∷ [])
unfolding copy_from start
write_lem_example = write_lem 4 wrapped (6 ∷ 7 ∷ []) wrapped-IsValid

snapshot-write_example :
    (snapshot 4 (write_locked 4 wrapped (6 ∷ 7 ∷ [])) (some 9)).0 ≡ 4 ∷ 5 ∷ 6 ∷ 7 ∷ 0 ∷ []
unfolding copy_from start
snapshot-write_example = snapshot-write 4 wrapped (6 ∷ 7 ∷ []) 9 wrapped-IsValid (omega arith)

-- "a: Bearer tok b"
abbrev lead : List ℕ
lead = b'a' ∷ b':' ∷ b' ' ∷ []

abbrev keyword : List ℕ
keyword = b'B' ∷ b'e' ∷ b'a' ∷ b'r' ∷ b'e' ∷ b'r' ∷ b' ' ∷ []

abbrev tok : List ℕ
tok = b't' ∷ b'o' ∷ b'k' ∷ []

abbrev trail : List ℕ
trail = b' ' ∷ b'b' ∷ []

mask-bearer_example :
    mask seek (lead ++ (keyword ++ (tok ++ trail)))
    ≡ lead ++ (keyword ++ (b'x' ∷ b'x' ∷ b'x' ∷ mask seek trail))
unfolding bearer_here replicate
mask-bearer_example =
    mask-bearer lead keyword tok trail refl refl (ground arith) (ground arith) refl

-- A doubled keyword: the first one's token is the second keyword, and the token behind it stays.
double_keyword :
    mask seek (keyword ++ (keyword ++ tok))
    ≡ keyword ++ (b'x' ∷ b'x' ∷ b'x' ∷ b'x' ∷ b'x' ∷ b'x' ∷ b' ' ∷ tok)
unfolding mask bearer_here
double_keyword = refl

-- "eink creds set k" and "EINK CREDS set q"
abbrev first_line : List ℕ
first_line = b'e' ∷ b'i' ∷ b'n' ∷ b'k' ∷ b' ' ∷ b'c' ∷ b'r' ∷ b'e' ∷ b'd' ∷ b's' ∷ b' ' ∷ b'k' ∷ []

abbrev second_line : List ℕ
second_line = b'E' ∷ b'I' ∷ b'N' ∷ b'K' ∷ b' ' ∷ b'C' ∷ b'R' ∷ b'E' ∷ b'D' ∷ b's' ∷ b' ' ∷ b'q' ∷ []

redact_inplace_hides_example :
    redact_inplace (some (join (lead ∷ []) (first_line ++ b'\n' ∷ trail)))
    ≡ redact_inplace (some (join (lead ∷ []) (second_line ++ b'\n' ∷ trail)))
unfolding has_creds creds_here
redact_inplace_hides_example =
    redact_inplace_hides (lead ∷ []) first_line second_line trail (ground arith) (ground arith)
      (ground arith) refl refl refl
