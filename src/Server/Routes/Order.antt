-- ===== src/Server/Routes/Order.antt =====
-- src/server.rs: the order in which the routes are tried.
use dse.Base.{
  ◌≡◌, ◌≢◌, refl, true, List, [], ◌∷◌, map, none, some, inl, inr, ap, All, Option-cases, arith,
}
use dse.Base.Bytes.{Bytes, codes, head}
use dse.Server.Routes.{
  Warp, IsWarp, Call, Route, post_action, get_user_queries, get_recv_queries, get_bids_of_query,
  ws_main, first_of, main,
}

module _ (warp : Warp) (r : warp.Request) where
  -- What a route accepts is accepted by the list.
  abbrev pub IsHeard : List (Route warp) → Route warp → Type 0
  IsHeard fs f = (c : Call) → f r ≡ some c → first_of warp fs r ≡ some c

module _ (warp : Warp) (law : IsWarp warp) (r : warp.Request) where
  -- A route accepts nothing but requests whose path begins with the given segment.
  abbrev IsUnder : Bytes × Route warp → Type 0
  IsUnder (a, f) = (c : Call) → f r ≡ some c → warp.path a r ≡ true

  abbrev AreApart : List (Bytes × Route warp) → Type 0
  AreApart [] = Unit
  AreApart ((a, f) ∷ fs) = All (λ (b, g). a ≢ b) fs × AreApart fs

  abbrev routes : List (Bytes × Route warp) → List (Route warp)
  routes fs = map (λ (a, f). f) fs

  silent :
      (a b : Bytes) (f : Route warp) → IsUnder (a, f) → a ≢ b → warp.path b r ≡ true → f r ≡ none
  silent a b f u ne p = elim (Option-cases (f r)) [
    | inl q ↦ q
    | inr (c, q) ↦ absurd (ne (law.one_segment r a b (u c q) p))
  ]

  IsHeard-after :
      (a : Bytes) (f : Route warp) (fs gs : List (Bytes × Route warp))
      → IsUnder (a, f)
      → All (λ (b, g). a ≢ b) gs
      → All IsUnder gs
      → All (IsHeard warp r (routes fs)) (routes gs)
      → All (IsHeard warp r (f ∷ routes fs)) (routes gs)
  unfolding first_of
  IsHeard-after a f fs [] u n us hs = tt
  IsHeard-after a f fs ((b, g) ∷ gs) u (ne, n) (v, us) (h, hs) =
      (λ c p. let q = silent a b f u ne (v c p) in rw q (h c p), IsHeard-after a f fs gs u n us hs)

  All-IsHeard :
      (fs : List (Bytes × Route warp))
      → All IsUnder fs
      → AreApart fs
      → All (IsHeard warp r (routes fs)) (routes fs)
  unfolding first_of
  All-IsHeard [] us n = tt
  All-IsHeard ((a, f) ∷ fs) (u, us) (n, ns) =
      (λ c p. rw p refl, IsHeard-after a f fs fs u n us (All-IsHeard fs us ns))

  post_action-IsUnder : IsUnder (codes "action", post_action warp)
  unfolding post_action
  post_action-IsUnder c p = ground arith

  get_user_queries-IsUnder : IsUnder (codes "userqueries", get_user_queries warp)
  unfolding get_user_queries
  get_user_queries-IsUnder c p = ground arith

  get_recv_queries-IsUnder : IsUnder (codes "recvqueries", get_recv_queries warp)
  unfolding get_recv_queries
  get_recv_queries-IsUnder c p = ground arith

  get_bids_of_query-IsUnder : IsUnder (codes "querybids", get_bids_of_query warp)
  unfolding get_bids_of_query
  get_bids_of_query-IsUnder c p = elim (Option-cases (warp.path_u32 (codes "querybids") r)) [
    | inl q ↦ absurd (ground (arith, p, q))
    | inr (n, q) ↦ law.starts_with r (codes "querybids") q
  ]

  ws_main-IsUnder : IsUnder (codes "connect", ws_main warp)
  unfolding ws_main
  ws_main-IsUnder c p = ground arith

  -- No route is hidden by one that is tried before it: what any route of the server accepts is what
  -- the server does.
  pub main-IsHeard : All (IsHeard warp r (main warp)) (main warp)
  main-IsHeard =
      All-IsHeard
        ((codes "action", post_action warp)
          ∷ (codes "userqueries", get_user_queries warp)
          ∷ (codes "recvqueries", get_recv_queries warp)
          ∷ (codes "querybids", get_bids_of_query warp)
          ∷ (codes "connect", ws_main warp)
          ∷ [])
        (
          post_action-IsUnder,
          (
            get_user_queries-IsUnder,
            (get_recv_queries-IsUnder, (get_bids_of_query-IsUnder, (ws_main-IsUnder, tt))),
          ),
        )
        (
          (
            (λ h. omega (arith, ap head h)),
            (
              (λ h. omega (arith, ap head h)),
              ((λ h. omega (arith, ap head h)), ((λ h. omega (arith, ap head h)), tt)),
            ),
          ),
          (
            (
              (λ h. omega (arith, ap head h)),
              ((λ h. omega (arith, ap head h)), ((λ h. omega (arith, ap head h)), tt)),
            ),
            (
              ((λ h. omega (arith, ap head h)), ((λ h. omega (arith, ap head h)), tt)),
              (((λ h. omega (arith, ap head h)), tt), (tt, tt)),
            ),
          ),
        )
