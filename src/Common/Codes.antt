-- ===== src/Common/Codes.antt =====
-- The signed integers that the handlers return, and the codes that nginx gives names to.
use Prim.Native.Nat.{ℕ, compare, Ordering}
use mathlib.Core.Bool.{Bool, true, false}

-- `negsuc n` is -(n + 1).
pub data ℤ : Type 0 where
  pos : ℕ → ℤ
  negsuc : ℕ → ℤ

-- `n < 0` and `n > 0`.
abbrev pub is_neg : ℤ → Bool
is_neg (pos n) = false
is_neg (negsuc n) = true

abbrev pub is_pos : ℤ → Bool
is_pos (pos n) = elim (compare 0 n) [ Ordering.lt ↦ true | _ ↦ false ]
is_pos (negsuc n) = false

abbrev pub is_num : ℕ → ℤ → Bool
is_num n (pos m) = elim (compare m n) [ Ordering.eq ↦ true | _ ↦ false ]
is_num n (negsuc m) = false

abbrev pub ngx_ok : ℤ
ngx_ok = pos 0

abbrev pub ngx_error : ℤ
ngx_error = negsuc 0

abbrev pub ngx_again : ℤ
ngx_again = negsuc 1

abbrev pub ngx_done : ℤ
ngx_done = negsuc 3

abbrev pub ngx_declined : ℤ
ngx_declined = negsuc 4

abbrev pub internal_server_error : ℤ
internal_server_error = pos 500

abbrev pub eq_code : ℤ → ℤ → Bool
eq_code (pos a) (pos b) = elim (compare a b) [ Ordering.eq ↦ true | _ ↦ false ]
eq_code (negsuc a) (negsuc b) = elim (compare a b) [ Ordering.eq ↦ true | _ ↦ false ]
eq_code _ _ = false

-- `rc >= NGX_HTTP_SPECIAL_RESPONSE`.
abbrev pub is_special_response : ℤ → Bool
is_special_response (pos n) = elim (compare 300 n) [ Ordering.gt ↦ false | _ ↦ true ]
is_special_response (negsuc n) = false
