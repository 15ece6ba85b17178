-- ===== src/UserManager/Sessions.antt =====
-- Challenges, tokens and file messages: what a lookup finds after each change.
use net_chat.Prelude.{
  ◌≡◌, [], Str, ℤ, pos, int_eq, int_eq_iff, str_eq, str_eq_iff, if◌then◌else◌, arith, int_key,
  str_key,
}
use net_chat.Proto.{Message, no_message}
use net_chat.Dict.{lookup-insert, lookup-erase}
use net_chat.PacketQueue.{PacketQueue}
use net_chat.UserManager.{
  Pools, get_challenge, set_challenge, del_challenge, get_user_id_by_token, set_user_id_by_token,
  get_file_msg, set_file_msg, del_file_msg,
}

module _ (pq : PacketQueue) where
  pub get_challenge-set_challenge :
      (i j : ℤ) (c : Str) (p : Pools pq)
      → get_challenge pq j (set_challenge pq i c p)
        ≡ (if int_eq i j then c else get_challenge pq j p)
  unfolding get_challenge set_challenge
  get_challenge-set_challenge i j c p = rw (lookup-insert i j c p.challenges) (ground arith)

  pub get_challenge-del_challenge :
      (i j : ℤ) (p : Pools pq)
      → get_challenge pq j (del_challenge pq i p)
        ≡ (if int_eq i j then [] else get_challenge pq j p)
  unfolding get_challenge del_challenge
  get_challenge-del_challenge i j p = ground (arith, lookup-erase i j p.challenges, int_eq_iff i j)

  -- A token stands for the user that it was last given to; the empty token stands for nobody.
  pub get_user_id_by_token-set_user_id_by_token :
      (s t : Str) (uid : ℤ) (p : Pools pq)
      → get_user_id_by_token pq t (set_user_id_by_token pq s uid p)
        ≡ (if str_eq t [] then pos 0 else if str_eq s t then uid else get_user_id_by_token pq t p)
  unfolding get_user_id_by_token set_user_id_by_token
  get_user_id_by_token-set_user_id_by_token s t uid p =
      rw (lookup-insert s t uid p.tokens) (ground arith)

  pub get_file_msg-set_file_msg :
      (s t : Str) (uid : ℤ) (msg : Message) (p : Pools pq)
      → get_file_msg pq t (set_file_msg pq s uid msg p)
        ≡ (if str_eq s t then (uid, msg) else get_file_msg pq t p)
  unfolding get_file_msg set_file_msg
  get_file_msg-set_file_msg s t uid msg p =
      rw (lookup-insert s t (uid, msg) p.file_msgs) (ground arith)

  pub get_file_msg-del_file_msg :
      (s t : Str) (p : Pools pq)
      → get_file_msg pq t (del_file_msg pq s p)
        ≡ (if str_eq s t then (pos 0, no_message) else get_file_msg pq t p)
  unfolding get_file_msg del_file_msg
  get_file_msg-del_file_msg s t p = ground (arith, lookup-erase s t p.file_msgs, str_eq_iff s t)
