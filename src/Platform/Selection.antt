-- ===== src/Platform/Selection.antt =====
-- Which systems the headers accept, and which back end the sources are compiled for there.
use qing.Common.{
  ◌≡◌, refl, sym, ap, ◌∙◌, ◌≢◌, ◌⊎◌, inl, inr, ◌↔◌, Bool, true, false, some, [], ◌∷◌, Bool-cases,
  arith, if◌then◌else◌,
}
use qing.Platform.{
  Macro, undefined, empty, one, is_defined, Predefined, Systems, Preprocessed, stops, goes_on,
  linux_error, not_supported, empty_condition, systems, is_supported, define, Backends, backends,
  has_backend, choose, net_define, Backend, use_iocp, use_epoll, io_data, poll_versions, else_if,
  listen_version,
}

-- A system that is supported has a back end.
supported-has_backend :
    (have_epoll : Bool) (s : Systems)
    → is_supported s ≡ true
    → has_backend (backends have_epoll s) ≡ true
unfolding is_supported has_backend backends is_defined
supported-has_backend e s q = ground arith

choose-supported :
    (have_epoll : Bool) (s : Systems)
    → is_supported s ≡ true
    → choose have_epoll (goes_on s) ≡ goes_on (backends have_epoll s)
unfolding choose
choose-supported e s q = rw (supported-has_backend e s q) refl

-- What the headers make of a system: the `#error` of net/define.hpp is never met.
net_define_lem :
    (p : Predefined)
    → ((p.linux ≡ true) × (net_define p ≡ stops linux_error))
      ⊎ ((p.linux ≡ false)
          × ((net_define p ≡ goes_on (backends p.have_epoll (systems p)))
              ⊎ (net_define p ≡ stops not_supported)))
unfolding net_define choose define
net_define_lem p = elim (Bool-cases p.linux) [
  | inl l ↦ inl (l, rw l refl)
  | inr l ↦ inr (
    l,
    elim (Bool-cases (is_supported (systems p))) [
      | inl s ↦
          let passes : define p ≡ goes_on (systems p) = rw (s, l) refl in
          inl (ap (choose p.have_epoll) passes ∙ choose-supported p.have_epoll (systems p) s)
      | inr s ↦ inr (rw (s, l) refl)
    ],
  )
]

goes_on-injective : (b b' : Backends) → Preprocessed.goes_on b ≡ goes_on b' → b ≡ b'
goes_on-injective b b' q = cc

-- The system is not Linux, and these are its macros.
accepted :
    (p : Predefined) (b : Backends)
    → net_define p ≡ goes_on b
    → (p.linux ≡ false) × (b ≡ backends p.have_epoll (systems p))
accepted p b q = elim (net_define_lem p) [
  | inl (l, r) ↦ cc
  | inr (l, inl r) ↦ (l, goes_on-injective b (backends p.have_epoll (systems p)) (sym q ∙ r))
  | inr (l, inr r) ↦ cc
]

-- What `listen` is for a back end, by the macro of epoll.
abbrev pub Listens : Bool → Backend → Backends → Type 0
Listens have_epoll x b =
    ((x ≡ use_iocp) × (listen_version b ≡ goes_on (some use_iocp)))
    ⊎ (((x ≡ use_epoll) × (have_epoll ≡ true) × (listen_version b ≡ goes_on (some use_epoll)))
        ⊎ ((x ≢ use_iocp) × (have_epoll ≡ false) × (listen_version b ≡ stops empty_condition)))

not_given : (h : Bool) (e : Macro) → e ≢ one → (e ≡ one) ↔ (h ≡ true) → h ≡ false
not_given h e other ne = elim (Bool-cases h) [ inl on ↦ absurd (other (ne.1 on)) | inr off ↦ off ]

chosen :
    (have_epoll : Bool) (i e k : Macro) (x : Backend)
    → i ≢ one
    → k ≢ one
    → (e ≡ one) ↔ (have_epoll ≡ true)
    → poll_versions (record { iocp = i; epoll = e; kqueue = k }) ≡ x ∷ []
    → (io_data (record { iocp = i; epoll = e; kqueue = k }) ≡ some x)
      × Listens have_epoll x (record { iocp = i; epoll = e; kqueue = k })
unfolding poll_versions io_data listen_version is_defined else_if
chosen h one e k x ni nk ne q = absurd (ni refl)
chosen h i e one x ni nk ne q = absurd (nk refl)
chosen h empty undefined undefined x ni nk ne q = (cc, inl (cc, refl))
chosen h empty empty undefined x ni nk ne q = cc
chosen h empty one undefined x ni nk ne q = cc
chosen h empty undefined empty x ni nk ne q = cc
chosen h empty empty empty x ni nk ne q = cc
chosen h empty one empty x ni nk ne q = cc
chosen h undefined undefined undefined x ni nk ne q = cc
chosen h undefined empty undefined x ni nk ne q =
    (cc, inr (inr (λ p. cc, not_given h empty (λ p. cc) ne, refl)))
chosen h undefined one undefined x ni nk ne q = (cc, inr (inl (cc, ne.0 refl, refl)))
chosen h undefined undefined empty x ni nk ne q =
    (cc, inr (inr (λ p. cc, not_given h undefined (λ p. cc) ne, refl)))
chosen h undefined empty empty x ni nk ne q = cc
chosen h undefined one empty x ni nk ne q = cc

-- The headers define a macro as nothing.
not_one : (c : Bool) → (if c then empty else undefined) ≢ one
not_one c p = elim (Bool-cases c) [ inl q ↦ cc (rw q at p) | inr q ↦ cc (rw q at p) ]

epoll_one :
    (have_epoll c : Bool)
    → ((if have_epoll then one else (if c then empty else undefined)) ≡ one) ↔ (have_epoll ≡ true)
epoll_one have_epoll c = elim (Bool-cases have_epoll) [
  | inl q ↦ rw q (λ _. refl, λ _. refl)
  | inr q ↦ rw q (λ p. absurd (not_one c p), λ p. cc)
]

-- Where the headers accept the macros of a system, and one version of `poll` is compiled: the
-- system is not Linux, `IO_DATA` and `listen` are those of the same back end as `poll`, but `listen`
-- is compiled only on Windows or with `-DHAVE_EPOLL`, since elsewhere an `#elif` has no condition.
pub selection :
    (p : Predefined) (b : Backends) (x : Backend)
    → net_define p ≡ goes_on b
    → poll_versions b ≡ x ∷ []
    → (p.linux ≡ false) × (io_data b ≡ some x) × Listens p.have_epoll x b
unfolding backends
selection p b x q one_poll =
    let (not_linux, is) = accepted p b q in
    let made = backends p.have_epoll (systems p) in
    let (structure, listens) =
      chosen p.have_epoll made.iocp made.epoll made.kqueue x (not_one _) (not_one _)
        (epoll_one p.have_epoll _) (rw is at one_poll) in
    (not_linux, rw is structure, rw is listens)
