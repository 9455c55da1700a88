-- ===== src/Chat/Service.antt =====
-- What chla_mailbox_service of hw5/src/server.c does with an entry of the client's mailbox.
use cse320_spring.Base.{ℕ, Bool, true, false, Option, none, some, [], length}
use cse320_spring.Base.Maybe.{◌>>=◌}
use cse320_spring.Base.Text.{Bytes}
use cse320_spring.Chat.Mailbox.{
  Entry, message, notice, NoticeType, no_notice, bounce_notice, rrcpt_notice, Mailbox, Post,
  mb_add_notice,
}
use cse320_spring.Chat.Protocol.{Sender}
use cse320_spring.Chat.Replies.{reply_header, client_send_packet}

-- `CHLA_MESG_PKT`, `CHLA_RCVD_PKT` and `CHLA_BOUNCE_PKT`
abbrev pub mesg_pkt : ℕ
mesg_pkt = 7

abbrev pub notice_pkt : NoticeType → ℕ
notice_pkt no_notice = 8
notice_pkt bounce_notice = 9
notice_pkt rrcpt_notice = 8

abbrev pub verdict : Bool → NoticeType
verdict true = rrcpt_notice
verdict false = bounce_notice

-- The body of the while loop. `raw` gives the bytes of an id in memory, `clock` is what clock_gettime
-- gives, and `item` is the cell that malloc gives for a notice to the sender. A notice for which there
-- is no time is read as if it were a message.
unfoldable pub serve_entry :
    (ℕ → ℕ → Option ℕ)
    → ℕ
    → ℕ
    → (ℕ → Bytes)
    → Option (ℕ × ℕ)
    → ℕ
    → Entry
    → Sender
    → Post
    → Option (Sender × Post)
serve_entry write fuel fuel' raw none item (notice type msgid) w s = none
serve_entry write fuel fuel' raw none item (message msgid from body length) w s = do
  t ← mb_add_notice item from bounce_notice msgid s
  some (w, t)
serve_entry write fuel fuel' raw (some timestamp) item (notice type msgid) w s = do
  r ←
      client_send_packet write fuel fuel' (reply_header (notice_pkt type) 0 (raw msgid) timestamp)
        [] w
  some (r.1, s)
serve_entry write fuel fuel' raw (some timestamp) item (message msgid from body length) w s = do
  r ←
      client_send_packet write fuel fuel' (reply_header mesg_pkt length (raw msgid) timestamp) body
        w
  t ← mb_add_notice item from (verdict r.0) msgid s
  some (r.1, t)
