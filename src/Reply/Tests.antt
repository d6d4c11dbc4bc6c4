-- ===== src/Reply/Tests.antt =====
-- Instances of the accounting theorem: a reply that is matched and one that is not, on pool 0.
use primo_arm_miner.Prelude.{
  ℕ, ◌+◌, ◌%◌, ◌≡◌, refl, true, false, some, List, [], ◌∷◌, codes, if◌then◌else◌,
}
use primo_arm_miner.Prelude.Int.{pos}
use primo_arm_miner.DevFee.{DevfeeState, initial_devfee, devfee_is_dev_pool}
use primo_arm_miner.Submit.{entry, submit_id_take_metadata, take_first}
use primo_arm_miner.Reply.{ResultView, json_true, json_object, Books, result_ok}
use primo_arm_miner.Reply.Accounting.{after_replies, matched, total, after_replies_lem}

abbrev fee : DevfeeState
fee = record initial_devfee { enabled = true; dev_pool_index = pos 1 }

abbrev books : Books ℕ
books = record {
  submits = record {
    next_submit_id = 12;
    pending_submits = entry 50 11 7 (pos 0) ∷ [];
    reconnect_requested = false;
    connected = true;
    shut_down = false;
  };
  stats = record {
    share_accepted_total = 0;
    share_rejected_total = 0;
    accepted_count = λ i. 0;
    rejected_count = λ i. 0;
  };
  thread_accepted = λ i. 0;
  thread_rejected = λ i. 0;
}

abbrev replies : List (ℕ × ResultView)
replies = (11, json_object (some (codes "ok"))) ∷ (11, json_true) ∷ []

ok_in_any_case : result_ok (json_object (some (codes "oK"))) ≡ true
unfolding result_ok
ok_in_any_case = refl

matches_once : matched replies books.submits ≡ 1
unfolding matched submit_id_take_metadata take_first
matches_once = refl

after_replies_lem_example :
    let s' = after_replies fee 2 1 0 replies books in
    let dev = devfee_is_dev_pool fee (pos 0) in
    (total s' % 4294967296 ≡ (0 + (if dev then 0 else matched replies books.submits)) % 4294967296)
    × (dev ≡ true
        → (s'.thread_accepted ≡ books.thread_accepted)
          × (s'.thread_rejected ≡ books.thread_rejected))
after_replies_lem_example = after_replies_lem fee 2 1 0 replies books
