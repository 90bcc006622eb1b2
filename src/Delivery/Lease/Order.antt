-- ===== src/Delivery/Lease/Order.antt =====
-- `ORDER BY created_at, id`: by time, then by the bytes of the identifier.
use Prim.Native.Nat.{Ordering}
use sentinel_grc.Prelude.{ℕ, Bool, true, false, ◌||◌, ◌&&◌, String, ltb, nat_beq}

abbrev pub text_before : String → String → Bool
text_before a b = elim (Prim.Native.String.compare a b) [ Ordering.lt ↦ true | _ ↦ false ]

unfoldable pub is_before : ℕ → String → ℕ → String → Bool
is_before t a u b = ltb t u || (nat_beq t u && text_before a b)
