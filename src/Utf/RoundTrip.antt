-- ===== src/Utf/RoundTrip.antt =====
-- utf.c: `get_utf` after `put_utf`.
use wp_lambdamoo.Prelude.{ℕ, ◌≡◌, some, List, ◌++◌, arith}
use wp_lambdamoo.Utf.{get_utf, put_utf, low_bits, shr}
use wp_lambdamoo.Utf.Bytes.{or_80, or_c0, or_e0, or_f0}

-- Whatever put_utf encodes, get_utf reads back, and it leaves what follows unread.
pub get_utf-put_utf :
    (v : ℕ) (bs rest : List ℕ) → put_utf v ≡ some bs → get_utf (bs ++ rest) ≡ (v, rest)
unfolding put_utf get_utf
get_utf-put_utf v bs rest h = ground (
  arith,
  or_80 (low_bits v 6),
  or_80 (low_bits (shr v 6) 6),
  or_80 (low_bits (shr v 12) 6),
  or_c0 (shr v 6),
  or_e0 (shr v 12),
  or_f0 (shr v 18),
)
