-- ===== src/TcpConnection/Sound.antt =====
-- net/TcpConnection.cpp: when the channel, the poller and the output buffer of a connection belong
-- together, and what the connection's requests to its loop and poller do then.
use easy_event.Base.{
  ℕ, ◌≡◌, ◌≢◌, refl, ap, ◌∙◌, true, false, [], some, pos, ok, Bool-cases, inl, inr,
}
use easy_event.Buffer.Contents.{contents}
use easy_event.Buffer.Contents
use easy_event.Channel.{Channel, is_writing, with_writing, without_writing}
use easy_event.Poller.{Poller, change_events}
use easy_event.Poller.Wiring.{IsWired}
use easy_event.Poller.Request.{Keeps, changed, changed_here, change_events-ok}
use easy_event.Poller.Renew.{renewed}
use easy_event.EventLoop.{EventLoop}
use easy_event.EventLoop.Queue.{queued, queue_in_loop-queues}
use easy_event.TcpConnection.{
  TcpConnection, Functor, write_complete_later, Os, Callbacks, channel_of, queue_write_complete,
  is_set,
}

-- The thread `current` is the loop's; the output buffer is well-formed; the poller is wired and
-- knows the connection's channel under the descriptor `n`, the loop owns the channel, and the channel waits for POLLOUT
-- exactly while there is something left to send.
pub record IsSound (current n : ℕ) (c : TcpConnection) : Type 0 where
  pub here : c.loop.thread_id ≡ current
  pub valid : Contents.IsValid c.output_buffer
  pub wired : IsWired c.poller
  pub known : c.poller.channel_map (pos n) ≡ some c.channel
  pub mine : (channel_of c).loop_ptr ≡ c.poller.owner_loop
  pub idle : contents c.output_buffer ≡ [] → is_writing (channel_of c) ≡ false
  pub busy : contents c.output_buffer ≢ [] → is_writing (channel_of c) ≡ true

-- The eventfd takes every write.
abbrev pub Wakes : Os → Type 0
Wakes os = (k : ℕ) → (m : ℕ) × (os.eventfd_write k ≡ some m)

pub writing-Keeps : Keeps with_writing
writing-Keeps = record { fd = λ c. refl; index = λ c. refl; loop_ptr = λ c. refl }

pub not_writing-Keeps : Keeps without_writing
not_writing-Keeps = record { fd = λ c. refl; index = λ c. refl; loop_ptr = λ c. refl }

-- A request of the channel leaves the poller wired, and the channel known and the loop's.
pub change_events-asked :
    (change : Channel → Channel)
    → Keeps change
    → (p n : ℕ) (s : Poller) → IsWired s
    → s.channel_map (pos n) ≡ some p
    → (s.channels p).loop_ptr ≡ s.owner_loop
    → (s' : Poller) × (change_events change true p s ≡ ok s')
      × IsWired s'
      × (s'.channel_map (pos n) ≡ some p)
      × ((s'.channels p).loop_ptr ≡ s'.owner_loop)
      × (s'.channels p ≡ change (s.channels p))
unfolding changed
change_events-asked change k p n s w known mine =
    let (i, pfd, at, was, did, wired, there) = change_events-ok change k p s n w known mine in
    (
      renewed p i pfd (changed change p s),
      did,
      wired,
      known,
      ap (λ (ch : Channel). ch.loop_ptr) (changed_here change k p s)
          ∙ k.loop_ptr (s.channels p)
          ∙ mine,
      changed_here change k p s,
    )

-- Queueing the callback for a completed write changes nothing but the loop.
pub queue_write_complete-ok :
    {T : Type 0} (os : Os) (cb : Callbacks T)
    → Wakes os
    → (current : ℕ) (c : TcpConnection)
    → (l : EventLoop Functor) × (queue_write_complete os cb current c ≡ ok (record c { loop = l }))
      × (l.thread_id ≡ c.loop.thread_id)
unfolding queue_write_complete
queue_write_complete-ok os cb wakes current c = elim (Bool-cases (is_set cb.write_complete_cb)) [
  | inl set ↦
      let (m, e) = wakes c.loop.wakeup_count in
      (
        queued current write_complete_later m c.loop,
        rw (set, queue_in_loop-queues os.eventfd_write current write_complete_later c.loop m e),
        refl,
      )
  | inr unset ↦ (c.loop, rw unset, refl)
]
