-- ===== src/Net/Channel/Masks.antt =====
-- The masks that a channel takes on, and what enabling and disabling do to them.
use simple_http_server.Common.{ℕ, zero, suc, ◌<◌, ◌≡◌, refl, arith, Bool, true, false, ◌&&◌, ltb}
use simple_http_server.Net.Channel.{has_any, with_mask, without_mask, read_event, write_event}

-- Every mask of a channel is made of reading and writing.
abbrev pub IsMask : ℕ → Type 0
IsMask e = e < 8

holds_on_masks : (ℕ → Bool) → Bool
holds_on_masks p = p 0 && (p 1 && (p 2 && (p 3 && (p 4 && (p 5 && (p 6 && p 7))))))

holds_on_masks_at : (p : ℕ → Bool) (e : ℕ) → IsMask e → holds_on_masks p ≡ true → p e ≡ true
unfolding holds_on_masks
holds_on_masks_at p zero small h = ground arith
holds_on_masks_at p (suc zero) small h = ground arith
holds_on_masks_at p (suc (suc zero)) small h = ground arith
holds_on_masks_at p (suc (suc (suc zero))) small h = ground arith
holds_on_masks_at p (suc (suc (suc (suc zero)))) small h = ground arith
holds_on_masks_at p (suc (suc (suc (suc (suc zero))))) small h = ground arith
holds_on_masks_at p (suc (suc (suc (suc (suc (suc zero)))))) small h = ground arith
holds_on_masks_at p (suc (suc (suc (suc (suc (suc (suc zero))))))) small h = ground arith
holds_on_masks_at p (suc (suc (suc (suc (suc (suc (suc (suc e)))))))) small h = absurd (omega arith)

same : Bool → Bool → Bool
same true b = b
same false true = false
same false false = true

same→eq : (a b : Bool) → same a b ≡ true → a ≡ b
unfolding same
same→eq a b h = ground arith

pub record Enabled (e f mask other : ℕ) (on : Bool) : Type 0 where
  pub mask_again : IsMask f
  pub this : has_any f mask ≡ on
  pub that : has_any f other ≡ has_any e other

checks : (ℕ → ℕ) → ℕ → ℕ → Bool → ℕ → Bool
checks change mask other on e =
    ltb (change e) 8
    && (same (has_any (change e) mask) on && same (has_any (change e) other) (has_any e other))

checks-Enabled :
    (change : ℕ → ℕ) (mask other : ℕ) (on : Bool) (e : ℕ)
    → checks change mask other on e ≡ true
    → Enabled e (change e) mask other on
unfolding checks same
checks-Enabled change mask other on e h = record {
  mask_again = ground arith;
  this = same→eq (has_any (change e) mask) on (ground arith);
  that = same→eq (has_any (change e) other) (has_any e other) (ground arith);
}

-- What the four changes of a mask do to it.
pub record Switches (e : ℕ) : Type 0 where
  pub reading_on : Enabled e (with_mask e read_event) read_event write_event true
  pub reading_off : Enabled e (without_mask e read_event) read_event write_event false
  pub writing_on : Enabled e (with_mask e write_event) write_event read_event true
  pub writing_off : Enabled e (without_mask e write_event) write_event read_event false

switched :
    (change : ℕ → ℕ) (mask other : ℕ) (on : Bool) (e : ℕ)
    → holds_on_masks (checks change mask other on) ≡ true
    → IsMask e
    → Enabled e (change e) mask other on
switched change mask other on e table h =
    checks-Enabled change mask other on e
      (holds_on_masks_at (checks change mask other on) e h table)

-- On every mask, enabling or disabling reading or writing sets that interest accordingly, leaves
-- the other one as it was, and gives a mask again.
pub IsMask-Switches : (e : ℕ) → IsMask e → Switches e
unfolding holds_on_masks checks same with_mask without_mask has_any
IsMask-Switches e h = record {
  reading_on = switched (λ x. with_mask x read_event) read_event write_event true e refl h;
  reading_off = switched (λ x. without_mask x read_event) read_event write_event false e refl h;
  writing_on = switched (λ x. with_mask x write_event) write_event read_event true e refl h;
  writing_off = switched (λ x. without_mask x write_event) write_event read_event false e refl h;
}
