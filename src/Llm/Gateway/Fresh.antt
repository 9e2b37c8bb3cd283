-- ===== src/Llm/Gateway/Fresh.antt =====
-- Where the answers of Generate come from (`Generate`, `getCached` and `putCached` of
-- cli/llm/gateway.go).
use xclaw.Prelude.{
  ℕ, suc, ◌+◌, ◌≤◌, ◌<◌, ◌≡◌, refl, sym, inl, inr, length, some, String, arith, Bool-cases,
  Option-cases, some_inj, str_eq, eq_iff, ltb,
}
use mathlib.Core.Path.{subst}
use xclaw.Prelude.Dict
use xclaw.Prelude.Dict.{
  Dict, HasNoRepeat, keep_unless, lookup-insert, lookup-erase, lookup-remove_if, insert-HasNoRepeat,
  remove_if-HasNoRepeat, erase-HasNoRepeat,
}
use xclaw.Llm.Gateway.{
  LocalGateway, ProviderConfig, CachedResponse, get_cached, put_cached, cache_time, is_stale,
}
use xclaw.Llm.Gateway.Ask.{Outside, ok, ask}
use xclaw.Llm.Gateway.Generate.{cache_key}

module _ (out : Outside) (providers : Dict ProviderConfig) where
  -- At the event `at`, `text` was the reply to a call whose key in the cache is `key`.
  pub record Given (at : ℕ) (key text : String) : Type 0 where
    pub provider : String
    pub model : String
    pub prompt : String
    pub same_key : cache_key out provider model prompt ≡ key
    pub replied : ask out at providers provider model prompt ≡ ok text

  -- The entry's text was given at an event before `event`, and the entry ends five minutes after the
  -- reading of the clock that followed.
  pub record IsGiven (event : ℕ) (key : String) (item : CachedResponse) : Type 0 where
    pub at : ℕ
    pub before : suc at < event
    pub given : Given at key item.response
    pub ends : item.expires ≡ out.clock (suc at) + cache_time

  pub record IsFresh (event : ℕ) (g : LocalGateway) : Type 0 where
    pub same_providers : g.providers ≡ providers
    pub once : HasNoRepeat g.cache
    pub entries :
        (key : String) (item : CachedResponse)
        → Dict.lookup key g.cache ≡ some item
        → IsGiven event key item

  later-IsGiven :
      (e e' : ℕ) (key : String) (item : CachedResponse)
      → e ≤ e'
      → IsGiven e key item
      → IsGiven e' key item
  later-IsGiven e e' key item h f = record {
    at = f.at;
    before = omega (arith, f.before, h);
    given = f.given;
    ends = f.ends;
  }

  pub later-IsFresh : (e e' : ℕ) (g : LocalGateway) → e ≤ e' → IsFresh e g → IsFresh e' g
  later-IsFresh e e' g h f = record {
    same_providers = f.same_providers;
    once = f.once;
    entries = λ key item found. later-IsGiven e e' key item h (f.entries key item found);
  }

  pub get_cached-IsFresh :
      (now event : ℕ) (key : String) (g : LocalGateway)
      → IsFresh event g
      → IsFresh event (get_cached now key g).1
  unfolding get_cached
  get_cached-IsFresh now event key g f = elim (Option-cases (Dict.lookup key g.cache)) [
    | inl e ↦
        rw (get_cached, e)
          (record { same_providers = f.same_providers; once = f.once; entries = f.entries })
    | inr (item, e) ↦
        rw (get_cached, e)
          (elim (Bool-cases (is_stale now item)) [
            | inl s ↦ rw s (record {
              same_providers = f.same_providers;
              once = erase-HasNoRepeat key g.cache f.once;
              entries = λ k i found. f.entries k i (erased key k i g.cache found);
            })
            | inr s ↦
                rw s
                  (record { same_providers = f.same_providers; once = f.once; entries = f.entries })
          ])
  ]
    where
      erased :
          (key k : String) (i : CachedResponse) (cache : Dict CachedResponse)
          → Dict.lookup k (Dict.erase key cache) ≡ some i
          → Dict.lookup k cache ≡ some i
      erased key k i cache found = ground (arith, lookup-erase key k cache, found)

  -- What the look-up gives is a text in the cache that is not stale.
  pub get_cached-found :
      (now : ℕ) (key text : String) (g : LocalGateway)
      → (get_cached now key g).0 ≡ some text
      → (item : CachedResponse) × (Dict.lookup key g.cache ≡ some item)
        × (item.response ≡ text)
        × (now ≤ item.expires)
  unfolding get_cached
  get_cached-found now key text g h = elim (Option-cases (Dict.lookup key g.cache)) [
    | inl e ↦ ground (arith, rw (get_cached, e) at h)
    | inr (item, e) ↦ ground (arith, rw (get_cached, e) at h, e)
  ]

  insert-IsGiven :
      (event : ℕ) (key k : String) (item i : CachedResponse) (cache : Dict CachedResponse)
      → IsGiven event key item
      → (Dict.lookup k cache ≡ some i → IsGiven event k i)
      → Dict.lookup k (Dict.insert key item cache) ≡ some i
      → IsGiven event k i
  insert-IsGiven event key k item i cache given entries found = elim (Bool-cases (str_eq key k)) [
    | inl e ↦
        let same : item ≡ i = some_inj (rw (lookup-insert key k item cache, e) at found) in
        subst (λ j. IsGiven event k j) same
          (subst (λ j. IsGiven event j item) ((eq_iff key k).0 e) given)
    | inr e ↦ entries (rw (lookup-insert key k item cache, e) at found)
  ]

  pub put_cached-IsFresh :
      (event at : ℕ) (later : ℕ) (key text : String) (g : LocalGateway)
      → suc at < event
      → Given at key text
      → IsFresh event g
      → IsFresh event (put_cached (out.clock (suc at)) later key text g)
  unfolding put_cached
  put_cached-IsFresh event at later key text g h given f =
      let item : CachedResponse = record {
        response = text;
        expires = out.clock (suc at) + cache_time;
      } in
      let once = insert-HasNoRepeat key item g.cache f.once in
      elim (Bool-cases (ltb 2048 (length (Dict.insert key item g.cache)))) [
        | inl big ↦ rw big (record {
          same_providers = f.same_providers;
          once = remove_if-HasNoRepeat (is_stale later) _ once;
          entries = λ k i found.
              inserted item refl refl k i (kept k i (Dict.insert key item g.cache) once found);
        })
        | inr small ↦ rw small (record {
          same_providers = f.same_providers;
          once = once;
          entries = inserted item refl refl;
        })
      ]
    where
      kept :
          (k : String) (i : CachedResponse) (cache : Dict CachedResponse)
          → HasNoRepeat cache
          → Dict.lookup k (Dict.remove_if (is_stale later) cache) ≡ some i
          → Dict.lookup k cache ≡ some i
      kept k i cache once found =
          ground (arith, lookup-remove_if (is_stale later) k cache once, found)

      inserted :
          (item : CachedResponse)
          → item.response ≡ text
          → item.expires ≡ out.clock (suc at) + cache_time
          → (k : String) (i : CachedResponse)
          → Dict.lookup k (Dict.insert key item g.cache) ≡ some i
          → IsGiven event k i
      inserted item same ends k i found =
          insert-IsGiven event key k item i g.cache
            (record {
              at = at;
              before = h;
              given = subst (Given at key) (sym same) given;
              ends = ends;
            })
            (f.entries k i) found
