-- ===== src/Proxy/Isolation.antt =====
-- sbc/proxy.go: p.calls and p.activeTx as they are for calls other than the one that a handler is about.
mod Tests
pub mod Others
use comcent_ce.Common.{
  ◌≡◌, ◌≢◌, ◌∙◌, refl, Bool, false, Text, text_eq, text_eq_iff, lookup, store, delete, lookup-store,
  lookup-delete, arith,
}
use comcent_ce.Sip.{Request}
use comcent_ce.Proxy.Calls.{CallState, Calls}

-- The tables are the same but for the call.
abbrev pub Apart : Text → Calls → Calls → Type 0
Apart id s t =
    (other : Text)
    → id ≢ other
    → (lookup other t.calls ≡ lookup other s.calls)
      × (lookup other t.active ≡ lookup other s.active)

different : (id other : Text) → id ≢ other → text_eq id other ≡ false
different id other n = ground (arith, text_eq_iff id other)

pub Apart-refl : (id : Text) (s : Calls) → Apart id s s
Apart-refl id s other n = (refl, refl)

pub Apart-trans : (id : Text) (s t u : Calls) → Apart id s t → Apart id t u → Apart id s u
Apart-trans id s t u f g other n = ((g other n).0 ∙ (f other n).0, (g other n).1 ∙ (f other n).1)

pub store_call-Apart :
    (id : Text) (v : CallState) (s : Calls) → Apart id s (record s { calls = store id v s.calls })
store_call-Apart id v s other n =
    (rw (lookup-store id other v s.calls, different id other n) refl, refl)

pub delete_call-Apart :
    (id : Text) (s : Calls) → Apart id s (record s { calls = delete id s.calls })
delete_call-Apart id s other n =
    (rw (lookup-delete id other s.calls, different id other n) refl, refl)

pub store_active-Apart :
    (id : Text) (v : Request) (s : Calls) → Apart id s (record s { active = store id v s.active })
store_active-Apart id v s other n =
    (refl, rw (lookup-store id other v s.active, different id other n) refl)

pub delete_active-Apart :
    (id : Text) (s : Calls) → Apart id s (record s { active = delete id s.active })
delete_active-Apart id s other n =
    (refl, rw (lookup-delete id other s.active, different id other n) refl)
