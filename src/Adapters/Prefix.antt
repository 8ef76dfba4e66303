-- ===== src/Adapters/Prefix.antt =====
-- The prefix that is counted from the netmask of an IPv6 address.
use devscan.Base.{
  ℕ, zero, suc, ◌+◌, ◌*◌, ◌-◌, ◌^◌, ◌<◌, ◌≡◌, refl, ◌∙◌, ◌∷◌, ◌++◌, arith, replicate,
}
use devscan.Adapters.Enumeration.{prefix_of}

-- The byte that starts with `bits` ones.
abbrev pub mask_byte : ℕ → ℕ
mask_byte bits = 256 - 2 ^ (8 - bits)

prefix_of-zeros : (n : ℕ) → prefix_of (replicate n 0) ≡ 0
unfolding prefix_of
prefix_of-zeros zero = refl
prefix_of-zeros (suc n) = refl

prefix_of-mask_byte : (bits n : ℕ) → bits < 8 → prefix_of (mask_byte bits ∷ replicate n 0) ≡ bits
unfolding prefix_of
prefix_of-mask_byte zero n h = refl
prefix_of-mask_byte (suc zero) n h = rw (prefix_of-zeros n)
prefix_of-mask_byte (suc (suc zero)) n h = rw (prefix_of-zeros n)
prefix_of-mask_byte (suc (suc (suc zero))) n h = rw (prefix_of-zeros n)
prefix_of-mask_byte (suc (suc (suc (suc zero)))) n h = rw (prefix_of-zeros n)
prefix_of-mask_byte (suc (suc (suc (suc (suc zero))))) n h = rw (prefix_of-zeros n)
prefix_of-mask_byte (suc (suc (suc (suc (suc (suc zero)))))) n h = rw (prefix_of-zeros n)
prefix_of-mask_byte (suc (suc (suc (suc (suc (suc (suc zero))))))) n h = rw (prefix_of-zeros n)
prefix_of-mask_byte (suc (suc (suc (suc (suc (suc (suc (suc m)))))))) n h = absurd (omega arith)

-- Of a netmask of ones followed by zeros alone, with fewer than eight ones behind the last whole byte
-- of ones, the number of ones is counted.
prefix_of-netmask :
    (ones bits zeros : ℕ)
    → bits < 8
    → prefix_of (replicate ones 255 ++ (mask_byte bits ∷ replicate zeros 0)) ≡ 8 * ones + bits
unfolding prefix_of
prefix_of-netmask zero bits zeros h =
    let e : bits ≡ 8 * 0 + bits = omega arith in prefix_of-mask_byte bits zeros h ∙ e
prefix_of-netmask (suc ones) bits zeros h = omega (arith, prefix_of-netmask ones bits zeros h)
