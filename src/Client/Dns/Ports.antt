-- ===== src/Client/Dns/Ports.antt =====
-- The names that are looked up, and the two schemes.
use mstun.Base.{
  ℕ, ◌≡◌, ◌≢◌, refl, sym, ap, ◌∙◌, arith, true, false, List, [], ◌∷◌, ◌++◌, Option, none, some,
  ==_iff, Bool-cases, ◌⊎◌, inl, inr,
}
use mstun.Core.Attributes.SocketAddr.{SocketAddr}
use mstun.Client.Dns.Numbers.{EndsInPort, has_port-EndsInPort, EndsInPort-has_port}
use mstun.Client.Dns.{
  found, failed, prefix_missing, uri_prefix, uri_secure_prefix, strip_prefix, has_port, with_port,
  reachable, resolve_stripped, resolve_uri, resolve_secure_uri,
}

-- The name that is looked up: the name itself if it ends in a port, or else the name with the default
-- port behind a colon.
with_port_own : (default name : List ℕ) → EndsInPort name → with_port default name ≡ name
unfolding with_port
with_port_own default name h = rw (EndsInPort-has_port name h) refl

with_port_default :
    (default name : List ℕ) → ¬ EndsInPort name → with_port default name ≡ name ++ b':' ∷ default
unfolding with_port
with_port_default default name h = elim (Bool-cases (has_port name)) [
  | inl own ↦ absurd (h (has_port-EndsInPort name own))
  | inr none_there ↦ rw none_there refl
]

EndsInPort-cases : (name : List ℕ) → EndsInPort name ⊎ ¬ EndsInPort name
EndsInPort-cases name = elim (Bool-cases (has_port name)) [
  | inl own ↦ inl (has_port-EndsInPort name own)
  | inr none_there ↦
      inr (λ ends. absurd (differ (sym (EndsInPort-has_port name ends) ∙ none_there)))
]
  where
    differ : ¬ (true ≡ false)
    differ e = cc

strip_prefix-eq-some :
    (prefix text rest : List ℕ) → strip_prefix prefix text ≡ some rest → text ≡ prefix ++ rest
strip_prefix-eq-some [] text rest e = cc
strip_prefix-eq-some (p ∷ prefix) [] rest e = cc
strip_prefix-eq-some (p ∷ prefix) (c ∷ text) rest e =
    ground (arith, ==_iff p c, strip_prefix-eq-some prefix text rest)

-- A text with the one prefix does not have the other.
plain_not_secure :
    (uri rest : List ℕ)
    → strip_prefix uri_prefix uri ≡ some rest
    → strip_prefix uri_secure_prefix uri ≡ none
plain_not_secure uri rest e =
    ap (strip_prefix uri_secure_prefix) (strip_prefix-eq-some uri_prefix uri rest e)

secure_not_plain :
    (uri rest : List ℕ)
    → strip_prefix uri_secure_prefix uri ≡ some rest
    → strip_prefix uri_prefix uri ≡ none
secure_not_plain uri rest e =
    ap (strip_prefix uri_prefix) (strip_prefix-eq-some uri_secure_prefix uri rest e)

reachable-found :
    (o : Option (List SocketAddr)) (addrs : List SocketAddr)
    → reachable o ≡ found addrs
    → (o ≡ some addrs) × (addrs ≢ [])
reachable-found none addrs e = cc
reachable-found (some []) addrs e = cc
reachable-found (some (addr ∷ more)) [] e = cc
reachable-found (some (addr ∷ more)) (a ∷ rest) e = (cc, λ none_left. absurd (no_cons none_left))
  where
    no_cons : {A : Type 0} {x : A} {xs : List A} → x ∷ xs ≡ [] → ⊥
    no_cons p = cc

-- "3478" and "5349"
abbrev pub plain_port : List ℕ
plain_port = b'3' ∷ b'4' ∷ b'7' ∷ b'8' ∷ []

abbrev pub secure_port : List ℕ
secure_port = b'5' ∷ b'3' ∷ b'4' ∷ b'9' ∷ []

module _ (lookup_host : List ℕ → Option (List SocketAddr)) where
  -- The lookup gave these for the name, if that ends in a port, or else for the name with the default
  -- port.
  abbrev pub IsFound : List ℕ → List ℕ → List SocketAddr → Type 0
  IsFound default name addrs =
      EndsInPort name × (lookup_host name ≡ some addrs)
      ⊎ ¬ EndsInPort name × (lookup_host (name ++ b':' ∷ default) ≡ some addrs)

  found_stripped :
      (default : List ℕ) (stripped : Option (List ℕ)) (addrs : List SocketAddr)
      → resolve_stripped lookup_host default stripped ≡ found addrs
      → (name : List ℕ) × (stripped ≡ some name) × IsFound default name addrs × (addrs ≢ [])
  found_stripped default none addrs e = cc
  found_stripped default (some name) addrs e =
      let (p, q) = reachable-found (lookup_host (with_port default name)) addrs e in
      (
        name,
        refl,
        elim (EndsInPort-cases name) [
          | inl ends ↦ inl (ends, rw (with_port_own default name ends) at p)
          | inr bare ↦ inr (bare, rw (with_port_default default name bare) at p)
        ],
        q,
      )

  -- Addresses come from a text with the prefix "stun:", which is no secure one, and are all that
  -- the lookup gave, at least one: for the name behind the prefix, if that ends in a colon and a
  -- decimal number of 16 bits, with or without a plus sign; or else for the name with ":3478".
  pub resolve_uri-found :
      (uri : List ℕ) (addrs : List SocketAddr)
      → resolve_uri lookup_host uri ≡ found addrs
      → (name : List ℕ) × (uri ≡ uri_prefix ++ name)
        × IsFound plain_port name addrs
        × (addrs ≢ [])
        × (resolve_secure_uri lookup_host uri ≡ failed prefix_missing)
  unfolding resolve_uri resolve_secure_uri
  resolve_uri-found uri addrs e =
      let (name, p, q, r) = found_stripped plain_port (strip_prefix uri_prefix uri) addrs e in
      (
        name,
        strip_prefix-eq-some uri_prefix uri name p,
        q,
        r,
        rw (plain_not_secure uri name p) refl,
      )

  -- The same for the secure scheme, whose default port is 5349.
  pub resolve_secure_uri-found :
      (uri : List ℕ) (addrs : List SocketAddr)
      → resolve_secure_uri lookup_host uri ≡ found addrs
      → (name : List ℕ) × (uri ≡ uri_secure_prefix ++ name)
        × IsFound secure_port name addrs
        × (addrs ≢ [])
        × (resolve_uri lookup_host uri ≡ failed prefix_missing)
  unfolding resolve_uri resolve_secure_uri
  resolve_secure_uri-found uri addrs e =
      let (name, p, q, r) =
        found_stripped secure_port (strip_prefix uri_secure_prefix uri) addrs e in
      (
        name,
        strip_prefix-eq-some uri_secure_prefix uri name p,
        q,
        r,
        rw (secure_not_plain uri name p) refl,
      )
