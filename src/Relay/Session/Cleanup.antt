-- ===== src/Relay/Session/Cleanup.antt =====
-- relay/src/session.rs: the periodic removal of sessions that have not been seen.
use plgames_booster_up.Base.{
  ℕ, ◌+◌, ◌-◌, ltb, ap, ◌>>=◌, ◌≡◌, refl, subst, ◌∙◌, inl, inr, Bool, false, ◌||◌, none, some, List,
  [], ◌∷◌, arith, length, ◌==◌, if◌then◌else◌, Bool-cases, All,
}
use plgames_booster_up.Base.Maps.{get, remove, Unique, remove_miss}
use plgames_booster_up.Relay.Session.{
  SessionInfo, SessionCache, lookup, active_count, unregister, unregister_all, is_stale,
  stale_tokens, cleanup_stale,
}
use plgames_booster_up.Relay.Session.Invariant.{IsConsistent}

abbrev Sessions : Type 0
Sessions = List (ℕ × SessionInfo)

abbrev elem : ℕ → List ℕ → Bool
elem k [] = false
elem k (t ∷ ts) = (t == k) || elem k ts

-- The entries whose key fails a test.
drop_keys : (ℕ → Bool) → Sessions → Sessions
drop_keys p [] = []
drop_keys p ((k, info) ∷ m) = if p k then drop_keys p m else (k, info) ∷ drop_keys p m

-- The entries that were seen in the last `timeout` milliseconds.
pub keep_fresh : ℕ → ℕ → Sessions → Sessions
keep_fresh now timeout [] = []
keep_fresh now timeout ((k, info) ∷ m) =
    if ltb timeout (now - info.last_seen)
    then keep_fresh now timeout m
    else (k, info) ∷ keep_fresh now timeout m

sessions-unregister : (c : SessionCache) (t : ℕ) → (unregister c t).sessions ≡ remove t c.sessions
unfolding unregister
sessions-unregister c t = ground (arith, remove_miss t c.sessions)

drop_keys-remove :
    (t : ℕ) (ts : List ℕ) (m : Sessions)
    → drop_keys (λ k. elem k ts) (remove t m) ≡ drop_keys (λ k. elem k (t ∷ ts)) m
unfolding drop_keys remove
drop_keys-remove t ts [] = refl
drop_keys-remove t ts ((k, info) ∷ m) = ground (arith, drop_keys-remove t ts m)

drop_keys-nil : (m : Sessions) → drop_keys (λ k. elem k []) m ≡ m
unfolding drop_keys
drop_keys-nil [] = refl
drop_keys-nil ((k, info) ∷ m) = rw (drop_keys-nil m)

sessions-unregister_all :
    (c : SessionCache) (ts : List ℕ)
    → (unregister_all c ts).sessions ≡ drop_keys (λ k. elem k ts) c.sessions
unfolding unregister_all
sessions-unregister_all c [] = rw (drop_keys-nil c.sessions)
sessions-unregister_all c (t ∷ ts) =
    rw (sessions-unregister_all (unregister c t) ts, sessions-unregister c t)
      (drop_keys-remove t ts c.sessions)

-- Every entry stands under its own token.
abbrev Keyed : Sessions → Type 0
Keyed = All (λ e. e.1.session_token ≡ e.0)

Keyed-of_get :
    (m : Sessions)
    → Unique m
    → ((t : ℕ) (info : SessionInfo) → get t m ≡ some info → info.session_token ≡ t)
    → Keyed m
unfolding get
Keyed-of_get [] u h = tt
Keyed-of_get ((k, info) ∷ m) u h =
    (h k info (ground arith), Keyed-of_get m u.1 (λ t i e. h t i (ground arith)))

not-elem-stale :
    (now timeout j : ℕ) (m : Sessions)
    → Keyed m
    → get j m ≡ none
    → elem j (stale_tokens now timeout m) ≡ false
unfolding stale_tokens get
not-elem-stale now timeout j [] kd h = refl
not-elem-stale now timeout j ((k, info) ∷ m) kd h =
    ground (arith, not-elem-stale now timeout j m kd.1)

drop_keys-eq-keep_fresh :
    (now timeout : ℕ) (p : ℕ → Bool) (m : Sessions)
    → All (λ e. p e.0 ≡ is_stale now timeout e.1) m
    → drop_keys p m ≡ keep_fresh now timeout m
unfolding drop_keys keep_fresh is_stale
drop_keys-eq-keep_fresh now timeout p [] h = refl
drop_keys-eq-keep_fresh now timeout p ((k, info) ∷ m) h =
    ground (arith, h.0, drop_keys-eq-keep_fresh now timeout p m h.1)

-- A token that is no key of the map changes no answer about its entries.
elem-absent :
    (now timeout k : ℕ) (ts : List ℕ) (m : Sessions)
    → get k m ≡ none
    → All (λ e. elem e.0 ts ≡ is_stale now timeout e.1) m
    → All (λ e. elem e.0 (k ∷ ts) ≡ is_stale now timeout e.1) m
unfolding get
elem-absent now timeout k ts [] h a = tt
elem-absent now timeout k ts ((j, info) ∷ m) h a =
    (ground (arith, a.0), elem-absent now timeout k ts m (ground arith) a.1)

-- The test `elem` agrees with staleness on every entry.
abbrev Agrees : ℕ → ℕ → Sessions → List ℕ → Type 0
Agrees now timeout m ts = All (λ e. elem e.0 ts ≡ is_stale now timeout e.1) m

elem-stale_tokens :
    (now timeout : ℕ) (m : Sessions)
    → Unique m
    → Keyed m
    → Agrees now timeout m (stale_tokens now timeout m)
unfolding stale_tokens
elem-stale_tokens now timeout [] u kd = tt
elem-stale_tokens now timeout ((k, info) ∷ m) u kd =
    let ts = stale_tokens now timeout m in
    let ih = elem-stale_tokens now timeout m u.1 kd.1 in
    elim (Bool-cases (is_stale now timeout info)) [
      | inl stale ↦
          let step : k ∷ ts ≡ stale_tokens now timeout ((k, info) ∷ m) = ground (arith, kd.0) in
          subst (Agrees now timeout ((k, info) ∷ m)) step
            (ground arith, elem-absent now timeout k ts m u.0 ih)
      | inr fresh ↦
          let step : ts ≡ stale_tokens now timeout ((k, info) ∷ m) = ground arith in
          subst (Agrees now timeout ((k, info) ∷ m)) step
            (ground (arith, not-elem-stale now timeout k m kd.1 u.0), ih)
    ]

length-keep_fresh :
    (now timeout : ℕ) (m : Sessions)
    → length (stale_tokens now timeout m) + length (keep_fresh now timeout m) ≡ length m
unfolding stale_tokens keep_fresh is_stale
length-keep_fresh now timeout [] = refl
length-keep_fresh now timeout ((k, info) ∷ m) = ground (arith, length-keep_fresh now timeout m)

-- In a consistent cache the cleanup removes exactly the sessions whose last packet, or registration,
-- is longer ago than the timeout, keeps the others as they are, and returns how many it removed.
pub cleanup_stale-keep_fresh :
    (c : SessionCache) (now : ℕ)
    → IsConsistent c
    → let r = cleanup_stale c now in
      (r.0.sessions ≡ keep_fresh now c.session_timeout c.sessions)
      × (r.1 + active_count r.0 ≡ active_count c)
unfolding cleanup_stale
cleanup_stale-keep_fresh c now v =
    let ts = stale_tokens now c.session_timeout c.sessions in
    let kept : (unregister_all c ts).sessions ≡ keep_fresh now c.session_timeout c.sessions =
      sessions-unregister_all c ts
      ∙ drop_keys-eq-keep_fresh now c.session_timeout (λ k. elem k ts) c.sessions
          (elem-stale_tokens now c.session_timeout c.sessions v.tokens_unique
            (Keyed-of_get c.sessions v.tokens_unique (λ t i e. (v.keyed t i e).0))) in
    (kept, rw kept (length-keep_fresh now c.session_timeout c.sessions))

get-keep_fresh :
    (now timeout t : ℕ) (m : Sessions)
    → Unique m
    → get t (keep_fresh now timeout m)
      ≡ (get t m >>= λ info. if ltb timeout (now - info.last_seen) then none else some info)
unfolding keep_fresh get
get-keep_fresh now timeout t [] u = refl
get-keep_fresh now timeout t ((k, info) ∷ m) u = ground (arith, get-keep_fresh now timeout t m u.1)

-- In a consistent cache, a token is found behind the cleanup exactly if it was found before with a session that is not
-- stale, and then that session is unchanged.
pub lookup-cleanup_stale :
    (c : SessionCache) (now t : ℕ)
    → IsConsistent c
    → lookup (cleanup_stale c now).0 t ≡ (
        lookup c t >>= λ info.
        if ltb c.session_timeout (now - info.last_seen) then none else some info)
lookup-cleanup_stale c now t v =
    ap (get t) (cleanup_stale-keep_fresh c now v).0
    ∙ get-keep_fresh now c.session_timeout t c.sessions v.tokens_unique
