-- ===== src/Poller/Asked/Invariant.antt =====
-- net/Poller.cpp: any sequence of uses keeps the array up to date.
use easy_event.Base.{◌≡◌, [], none, ℤ, arith}
use easy_event.Poller.{Poller}
use easy_event.Poller.Wiring.{IsWired}
use easy_event.Poller.Asked.{IsAsked, Request, changes, joins, leaves, polls, Requests, here, next}
use easy_event.Poller.Asked.Stay.{change_events-IsAsked, enable_reading-IsAsked, poll-IsAsked}
use easy_event.Poller.Asked.Leave.{leave-IsAsked}

Request-IsAsked : (s s' : Poller) → IsWired s → IsAsked s → Request s s' → IsWired s' × IsAsked s'
Request-IsAsked s s' w a (changes change k p n known mine e) =
    change_events-IsAsked change k p n s s' w a known mine e
Request-IsAsked s s' w a (joins p n unused fresh e) =
    enable_reading-IsAsked p n s s' w a unused fresh e
Request-IsAsked s s' w a (leaves p n known mine e) = leave-IsAsked p n s s' w a known mine e
Request-IsAsked s s' w a (polls sys_poll active answers number e) =
    poll-IsAsked sys_poll active s s' w a answers number e

-- A poller starts with nothing in the array and the map; channels then join, change what they wait for and
-- leave, and the loop polls, in any order and any number of times, each in the loop's thread. At every
-- moment the poller is wired, and in the array for poll(2) the entry of every channel in the map has exactly
-- the events that the channel waits for.
pub Requests-IsAsked :
    (s s' : Poller)
    → s.pollfds ≡ []
    → ((fd : ℤ) → s.channel_map fd ≡ none)
    → Requests s s'
    → IsWired s' × IsAsked s'
Requests-IsAsked s s' no_entries no_channels here = (
  record {
    entries = λ fd p e. absurd (ground (arith, no_channels fd, e));
    slots = λ i x e. absurd (ground (arith, no_entries, e));
  },
  λ fd q i x e. absurd (ground (arith, no_channels fd, e)),
)
Requests-IsAsked s s' no_entries no_channels (next before request) =
    let (wired, asked) = Requests-IsAsked s _ no_entries no_channels before in
    Request-IsAsked _ s' wired asked request
