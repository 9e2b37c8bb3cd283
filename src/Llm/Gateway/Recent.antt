-- ===== src/Llm/Gateway/Recent.antt =====
-- How old the answers of Generate may be (cli/llm/gateway.go).
use xclaw.Prelude.{ℕ, suc, ◌+◌, ◌≤◌, ◌<◌, ◌≡◌, refl, sym, Option, none, some, String, arith}
use mathlib.Core.Path.{subst}
use xclaw.Prelude.Dict.{Dict}
use xclaw.Llm.Gateway.{LocalGateway, ProviderConfig, get_cached, cache_time}
use xclaw.Llm.Gateway.Ask.{Outside, Reply, ok, err}
use xclaw.Llm.Gateway.Generate.{Outcome, cache_key, stored, looked_up, answer}
use xclaw.Llm.Gateway.Fresh.{
  Given, IsFresh, later-IsFresh, get_cached-IsFresh, get_cached-found, put_cached-IsFresh,
}

module _ (out : Outside) (providers : Dict ProviderConfig) where
  -- `text` was given at an event before `event`, and the clock that is read at `read` is at most five
  -- minutes past the reading that followed it.
  pub record IsRecent (read event : ℕ) (key text : String) : Type 0 where
    pub at : ℕ
    pub before : suc at < event
    pub given : Given out providers at key text
    pub in_time : out.clock read ≤ out.clock (suc at) + cache_time

  -- What a step that answers a call with the key `key` guarantees.
  pub record Answers (event : ℕ) (key : String) (o : Outcome Reply) : Type 0 where
    pub fresh : IsFresh out providers o.1 o.2
    pub advanced : event ≤ o.1
    pub recent : (text : String) → o.0 ≡ ok text → IsRecent event o.1 key text

  stored-Answers :
      (event : ℕ) (key : String) (reply : Reply) (g : LocalGateway)
      → ((a b : ℕ) → a ≤ b → out.clock a ≤ out.clock b)
      → ((text : String) → reply ≡ ok text → Given out providers (suc event) key text)
      → IsFresh out providers (suc event) g
      → Answers event key (stored out (suc (suc event)) key reply g)
  unfolding stored
  stored-Answers event key (err e) g mono given f = record {
    fresh = later-IsFresh out providers (suc event) (suc (suc event)) g (omega arith) f;
    advanced = omega arith;
    recent = λ text h. cc;
  }
  stored-Answers event key (ok text) g mono given f = record {
    fresh =
        put_cached-IsFresh out providers (suc (suc (suc (suc event)))) (suc event)
          (out.clock (suc (suc (suc event)))) key text g (omega arith) (given text refl)
          (later-IsFresh out providers (suc event) (suc (suc (suc (suc event)))) g (omega arith) f);
    advanced = omega arith;
    recent = λ text' h. record {
      at = suc event;
      before = omega arith;
      given = given text' h;
      in_time = omega (arith, mono event (suc (suc event)) (omega arith));
    };
  }

  module _ (mono : (a b : ℕ) → a ≤ b → out.clock a ≤ out.clock b) where
    looked_up-Answers :
        (provider model prompt : String) (event : ℕ) (o : Option String × LocalGateway)
        → ((text : String)
            → o.0 ≡ some text
            → IsRecent event (suc event) (cache_key out provider model prompt) text)
        → IsFresh out providers (suc event) o.1
        → Answers event
            (cache_key out provider model prompt)
            (looked_up out provider model prompt (suc event) o)
    unfolding looked_up
    looked_up-Answers provider model prompt event (some text, g) recent f = record {
      fresh = f;
      advanced = omega arith;
      recent = λ text' h. recent text' (ground (arith, h));
    }
    looked_up-Answers provider model prompt event (none, g) recent f =
        stored-Answers event (cache_key out provider model prompt) _ g mono
          (λ text h. record {
            provider = provider;
            model = model;
            prompt = prompt;
            same_key = refl;
            replied = rw (sym f.same_providers) h;
          })
          f

    IsRecent-found :
        (event : ℕ) (key text : String) (g : LocalGateway)
        → IsFresh out providers event g
        → (get_cached (out.clock event) key g).0 ≡ some text
        → IsRecent event (suc event) key text
    IsRecent-found event key text g f h =
        let (item, found, same, stands) =
          get_cached-found out providers (out.clock event) key text g h in
        let origin = f.entries key item found in
        record {
          at = origin.at;
          before = omega (arith, origin.before);
          given = subst (Given out providers origin.at key) same origin.given;
          in_time = subst (λ t. out.clock event ≤ t) origin.ends stands;
        }

    pub answer-Answers :
        (provider model prompt : String) (event : ℕ) (g : LocalGateway)
        → IsFresh out providers event g
        → Answers event
            (cache_key out provider model prompt)
            (answer out provider model prompt event g)
    unfolding answer
    answer-Answers provider model prompt event g f =
        let key = cache_key out provider model prompt in
        looked_up-Answers provider model prompt event (get_cached (out.clock event) key g)
          (λ text h. IsRecent-found event key text g f h)
          (get_cached-IsFresh out providers (out.clock event) (suc event) key g
            (later-IsFresh out providers event (suc event) g (omega arith) f))
