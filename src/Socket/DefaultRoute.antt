-- ===== src/Socket/DefaultRoute.antt =====
-- The two tests of sky_if_get_gateway (sky/src/sky_local_socket.c) on a route, told without its calls.
use skysdk.Base.{
  ℕ, ◌≡◌, ◌⊎◌, refl, sym, ap, ◌∙◌, inl, inr, true, Bool-cases, Option, none, some, Option-cases,
  List, [], ◌∷◌, ◌++◌, Str, str_eq, str_eq→eq, str_eq_refl, arith,
}
use mathlib.Core.Path.{subst}
use skysdk.Str.{starts_with, str_str}
use skysdk.Socket.Routes.{Route, Library, Message, zero_address, is_some, default_route}

-- a text stands somewhere in another
abbrev pub Contains : (haystack needle : Str) → Type 0
Contains haystack needle = (before : Str) × (after : Str) × (haystack ≡ before ++ (needle ++ after))

starts_with-append : (t after : Str) → starts_with (t ++ after) t ≡ true
unfolding starts_with
starts_with-append [] after = refl
starts_with-append (c ∷ t) after = ground (arith, starts_with-append t after)

starts_with-split : (s t : Str) → starts_with s t ≡ true → (after : Str) × (s ≡ t ++ after)
unfolding starts_with
starts_with-split s [] begins = (s, refl)
starts_with-split [] (b ∷ t) begins = absurd (cc)
starts_with-split (a ∷ s) (b ∷ t) begins =
    let same : a ≡ b = ground (arith, begins) in
    let (after, e) = starts_with-split s t (ground (arith, begins)) in
    (after, ap (λ c. c ∷ s) same ∙ ap (λ l. b ∷ l) e)

found-Contains :
    (haystack needle : Str) → is_some (str_str haystack needle) ≡ true → Contains haystack needle
unfolding str_str
found-Contains [] needle begins = elim (Bool-cases (starts_with [] needle)) [
  | inl here ↦ let (after, e) = starts_with-split [] needle here in ([], after, e)
  | inr absent ↦ absurd (let e = rw (absent) at begins in cc)
]
found-Contains (a ∷ haystack) needle begins =
    elim (Bool-cases (starts_with (a ∷ haystack) needle)) [
      | inl here ↦ let (after, e) = starts_with-split (a ∷ haystack) needle here in ([], after, e)
      | inr absent ↦
          let (before, after, e) = found-Contains haystack needle (rw (absent) at begins) in
          (a ∷ before, after, ap (λ l. a ∷ l) e)
    ]

finds_here : (s t : Str) → starts_with s t ≡ true → is_some (str_str s t) ≡ true
unfolding str_str
finds_here [] t begins = rw begins refl
finds_here (a ∷ s) t begins = rw begins refl

finds : (before needle after : Str) → is_some (str_str (before ++ (needle ++ after)) needle) ≡ true
unfolding str_str
finds [] needle after = finds_here (needle ++ after) needle (starts_with-append needle after)
finds (a ∷ before) needle after =
    elim (Bool-cases (starts_with (a ∷ (before ++ (needle ++ after))) needle)) [
      | inl here ↦ rw here refl
      | inr absent ↦ rw absent (finds before needle after)
    ]

Contains-found : (s t : Str) → Contains s t → is_some (str_str s t) ≡ true
Contains-found s t (before, after, e) =
    subst (λ x. is_some (str_str x t) ≡ true) (sym e) (finds before t after)

same_text : (s t : Str) → s ≡ t → str_eq s t ≡ true
same_text s t e = subst (λ x. str_eq s x ≡ true) e (str_eq_refl s)

same_route : (r r' : Route) (o : Option Route) → o ≡ some r → o ≡ some r' → r' ≡ r
same_route r r' o e e' = cc

module _ (lib : Library) (if_name : Str) where
  -- parse_routes reads the message as a route of the interface over the gateway `g`, with "0.0.0.0"
  -- somewhere in the text of its destination
  abbrev pub IsDefault : Message → (g : ℕ) → Type 0
  IsDefault m g =
      (route : Route) × (lib.parse_routes m ≡ some route)
      × (route.if_name ≡ if_name)
      × Contains (lib.inet_ntoa route.dst_addr)
          (b'0' ∷ b'.' ∷ b'0' ∷ b'.' ∷ b'0' ∷ b'.' ∷ b'0' ∷ [])
      × (g ≡ route.gateway)

  pub default_route-IsDefault :
      (any : ℕ) (m : Message)
      → ((g : ℕ) × (default_route lib any if_name m ≡ some g) × IsDefault m g)
        ⊎ ((default_route lib any if_name m ≡ none) × ((g : ℕ) → ¬ IsDefault m g))
  unfolding default_route
  default_route-IsDefault any m = elim (Option-cases (lib.parse_routes m)) [
    | inl unread ↦
        inr (
          rw (default_route, unread) refl,
          λ g (route, read, named, there, via). let e = read in cc,
        )
    | inr (route, read) ↦ elim (Bool-cases (str_eq route.if_name if_name)) [
      | inr elsewhere ↦ inr (
        rw (default_route, read, elsewhere) refl,
        λ g (route', read', named, there, via).
            let same = same_route route route' (lib.parse_routes m) read read' in
            let e : str_eq route.if_name if_name ≡ true =
              subst (λ (x : Route). str_eq x.if_name if_name ≡ true) same
                (same_text route'.if_name if_name named) in
            cc,
      )
      | inl named ↦
          elim (Bool-cases (is_some (str_str (lib.inet_ntoa route.dst_addr) zero_address))) [
            | inl zero ↦ inl (
              route.gateway,
              rw (default_route, read, named, zero) refl,
              (
                route,
                read,
                str_eq→eq route.if_name if_name named,
                found-Contains (lib.inet_ntoa route.dst_addr) zero_address zero,
                refl,
              ),
            )
            | inr other ↦ inr (
              rw (default_route, read, named, other) refl,
              λ g (route', read', named', there, via).
                  let same = same_route route route' (lib.parse_routes m) read read' in
                  let e : is_some (str_str (lib.inet_ntoa route.dst_addr) zero_address) ≡ true =
                    subst
                      (λ (x : Route).
                        is_some (str_str (lib.inet_ntoa x.dst_addr) zero_address) ≡ true)
                      same (Contains-found (lib.inet_ntoa route'.dst_addr) zero_address there) in
                  cc,
            )
          ]
    ]
  ]

  abbrev pub NoDefault : List Message → Type 0
  NoDefault [] = Unit
  NoDefault (m ∷ ms) = ((g : ℕ) → ¬ IsDefault m g) × NoDefault ms

  -- the gateway of the first such message, or `any` where there is none
  abbrev pub FirstDefault : (any : ℕ) → List Message → (g : ℕ) → Type 0
  FirstDefault any msgs g =
      (NoDefault msgs × (g ≡ any))
      ⊎ ((skipped : List Message) × (m : Message) × (rest : List Message) × (msgs
            ≡ skipped ++ m ∷ rest)
          × NoDefault skipped
          × IsDefault m g)

  pub FirstDefault-here :
      (any : ℕ) (m : Message) (ms : List Message) (g : ℕ)
      → IsDefault m g
      → FirstDefault any (m ∷ ms) g
  FirstDefault-here any m ms g hit = inr ([], m, ms, refl, tt, hit)

  pub FirstDefault-later :
      (any : ℕ) (m : Message) (ms : List Message) (g : ℕ)
      → ((g : ℕ) → ¬ IsDefault m g)
      → FirstDefault any ms g
      → FirstDefault any (m ∷ ms) g
  FirstDefault-later any m ms g other (inl (nothing, e)) = inl ((other, nothing), e)
  FirstDefault-later any m ms g other (inr (skipped, hit, rest, e, nothing, found)) =
      inr (m ∷ skipped, hit, rest, ap (λ l. m ∷ l) e, (other, nothing), found)
