-- ===== src/Core/Transport/Pool/Lookups.antt =====
-- The map of the pool, by what it holds for an address.
use mstun.Base.{
  ◌≡◌, ◌≢◌, refl, sym, ◌∙◌, arith, true, false, none, some, List, [], ◌∷◌, ==_iff, ==_refl,
  Bool-cases, inl, inr,
}
use mstun.Base.Bytes.{bytes_eq-eq, bytes_eq_refl}
use mstun.Core.Attributes.SocketAddr.{SocketAddr, v4, v6}
use mstun.Core.Transport.Pool.{addr_eq, lookup, remove, insert}

pub addr_eq_refl : (a : SocketAddr) → addr_eq a a ≡ true
addr_eq_refl (v4 octets port) = rw (bytes_eq_refl octets, ==_refl port) refl
addr_eq_refl (v6 octets port flow scope) =
    rw (bytes_eq_refl octets, ==_refl port, ==_refl flow, ==_refl scope) refl

pub addr_eq-eq : (a b : SocketAddr) → addr_eq a b ≡ true → a ≡ b
addr_eq-eq (v4 octets port) (v4 octets' port') h =
    ground (arith, bytes_eq-eq octets octets', ==_iff port port')
addr_eq-eq (v6 octets port flow scope) (v6 octets' port' flow' scope') h =
    ground
      (arith, bytes_eq-eq octets octets', ==_iff port port', ==_iff flow flow', ==_iff scope scope')
addr_eq-eq (v4 octets port) (v6 octets' port' flow scope) h = cc
addr_eq-eq (v6 octets port flow scope) (v4 octets' port') h = cc

pub addr_neq : (a b : SocketAddr) → a ≢ b → addr_eq a b ≡ false
addr_neq a b different = elim (Bool-cases (addr_eq a b)) [
  | inl same ↦ absurd (different (addr_eq-eq a b same))
  | inr apart ↦ apart
]

module _ {S : Type 0} where
  pub lookup-remove :
      (addr : SocketAddr) (entries : List (SocketAddr × S))
      → lookup addr (remove addr entries) ≡ none
  lookup-remove addr [] = refl
  lookup-remove addr ((key, sink) ∷ entries) = elim (Bool-cases (addr_eq key addr)) [
    | inl same ↦ rw same (lookup-remove addr entries)
    | inr apart ↦ rw (apart, apart) (lookup-remove addr entries)
  ]

  pub lookup-remove_other :
      (addr other : SocketAddr) (entries : List (SocketAddr × S))
      → addr ≢ other
      → lookup other (remove addr entries) ≡ lookup other entries
  lookup-remove_other addr other [] h = refl
  lookup-remove_other addr other ((key, sink) ∷ entries) h = elim (Bool-cases (addr_eq key addr)) [
    | inl same ↦
        let apart : addr_eq key other ≡ false =
          addr_neq key other (λ e. h (sym (addr_eq-eq key addr same) ∙ e)) in
        rw (same, apart) (lookup-remove_other addr other entries h)
    | inr apart ↦ elim (Bool-cases (addr_eq key other)) [
      | inl hit ↦ rw (apart, hit) refl
      | inr miss ↦ rw (apart, miss) (lookup-remove_other addr other entries h)
    ]
  ]

  pub lookup-insert :
      (addr : SocketAddr) (sink : S) (entries : List (SocketAddr × S))
      → lookup addr (insert addr sink entries) ≡ some sink
  lookup-insert addr sink entries = rw (addr_eq_refl addr) refl

  pub lookup-insert_other :
      (addr other : SocketAddr) (sink : S) (entries : List (SocketAddr × S))
      → addr ≢ other
      → lookup other (insert addr sink entries) ≡ lookup other entries
  lookup-insert_other addr other sink entries h =
      rw (addr_neq addr other h) (lookup-remove_other addr other entries h)
