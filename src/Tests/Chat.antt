-- ===== src/Tests/Chat.antt =====
-- The chat service's parts on concrete inputs.
use cc_be_chat_test.Common.{
  ℕ, suc, ap, inl, inr, take, get_or, ok, panic, ◌≢◌, ◌+◌, ◌-◌, ◌≡◌, ◌≤◌, refl, false, some, List,
  [], ◌∷◌, ◌++◌, arith, length, drop, replicate, eq_text, if◌then◌else◌,
}
use cc_be_chat_test.History.{new_history, get_history, add_all}
use cc_be_chat_test.History.Laws.{history_keeps_last}
use cc_be_chat_test.Popular.{PopularWords, add}
use cc_be_chat_test.Popular.Counts.{said_at, add_counts, last_second_lost}
use cc_be_chat_test.Badwords.{
  WordTree, init, search, star, add_lines, tree_of, add_word, add_length, insert_sorted, run,
  match_at, match_length, count_word, masked,
}
use cc_be_chat_test.Badwords
use cc_be_chat_test.Badwords.File.Once.{del_from_file_once}
use cc_be_chat_test.Badwords.File.{del_from_file, del_loop}
use cc_be_chat_test.Badwords.Occurrences.{NoneIn, search_complete, search_sound}
use cc_be_chat_test.Badwords.Dictionary.Lengths.{Member}
use cc_be_chat_test.TcpClient.{TcpClient, new_tcp_client, send_async, write_one, queued}
use cc_be_chat_test.TcpClient.Queue.{begin, by_queueing, by_writing, queue_is_fifo}
use cc_be_chat_test.Service.{TcpService, add_client, ChatState}

abbrev sixty : List ℕ
sixty = replicate 60 7

history_keeps_last_example :
    get_history (add_all new_history sixty) ≡ drop (length sixty - 50) sixty
history_keeps_last_example = history_keeps_last sixty

-- Six seconds, in each of which the word `hi` was said.
abbrev hi : List ℕ
hi = 104 ∷ 105 ∷ []

abbrev busy : PopularWords
busy =
    (10, (hi, 1) ∷ [])
    ∷ (11, (hi, 2) ∷ [])
    ∷ (12, (hi, 1) ∷ [])
    ∷ (13, (hi, 1) ∷ [])
    ∷ (14, (hi, 1) ∷ [])
    ∷ (15, (hi, 3) ∷ [])
    ∷ []

add_counts_example :
    (said_at (add busy 15 15 hi) 15 hi ≡ said_at busy 15 hi + (if eq_text hi hi then 1 else 0))
    × (said_at (add busy 15 15 hi) 12 hi ≡ said_at busy 12 hi)
add_counts_example =
    add_counts busy 15 15 12 hi hi (λ e. omega (arith, e)) (λ e. omega (arith, e))
      (λ e. omega (arith, e))

-- The clock is read twice in one second; and once before and once after it moves on.
last_second_lost_example : said_at (add busy 15 (suc 14) hi) 14 hi ≡ 0
last_second_lost_example = last_second_lost busy 15 14 hi hi (omega arith)

said_and_lost : said_at (add busy 15 (suc 15) hi) 15 hi ≡ 0
said_and_lost = last_second_lost busy 15 15 hi hi (omega arith)

abbrev queue_client : TcpClient ℕ
queue_client = (send_async 256 false 42 (new_tcp_client false)).0

one_queued : send_async 256 false 42 (new_tcp_client false) ≡ (queue_client, queued)
unfolding send_async new_tcp_client
one_queued = refl

queue_is_fifo_example :
    ((write_one queue_client).written ++ (write_one queue_client).queue ≡ 42 ∷ [])
    × (length (write_one queue_client).queue ≤ 256)
queue_is_fifo_example = queue_is_fifo 256 false (write_one queue_client) (42 ∷ []) (
    by_writing queue_client (42 ∷ [])
      (by_queueing (new_tcp_client false) queue_client [] false 42 begin one_queued))

abbrev nobody : TcpService
nobody = record { clients = []; name_verb = [] }

abbrev both : TcpService
both = add_client (add_client nobody 100 1 hi) 160 2 hi

abbrev no_words : WordTree
no_words = record { word_max_len = 0; trees = [] }

-- The dictionary with the one word `ab`.
abbrev pub ab_lines : List (List ℕ)
ab_lines = (97 ∷ 98 ∷ []) ∷ []

abbrev pub ab_tree : WordTree
ab_tree = record {
  word_max_len = 2;
  trees =
      (
        97,
        record {
          len_map = (2, 2) ∷ [];
          len_slice = 2 ∷ [];
          words = (97 ∷ 98 ∷ [], star ∷ star ∷ []) ∷ [];
        },
      )
      ∷ [];
}

pub init_ab : init {E = Unit {0}} ab_lines ≡ ok ab_tree
unfolding init add_lines Badwords.add tree_of add_word add_length insert_sorted
init_ab = refl

-- The text `xabay`, before and after the search.
search_ab :
    search ab_tree (120 ∷ 97 ∷ 98 ∷ 97 ∷ 121 ∷ []) (some star)
    ≡ (120 ∷ 42 ∷ 42 ∷ 97 ∷ 121 ∷ [], (97 ∷ 98 ∷ [], 1) ∷ [])
unfolding search run match_at match_length count_word masked
search_ab = refl

-- The text `xa`.
abbrev clean_text : List ℕ
clean_text = 120 ∷ 97 ∷ []

nothing_found : length (search ab_tree clean_text (some star)).1 ≡ 0
unfolding search run match_at match_length
nothing_found = refl

search_complete_example :
    ((search ab_tree clean_text (some star)).0 ≡ clean_text) × NoneIn ab_lines clean_text
search_complete_example =
    search_complete ab_lines ab_tree clean_text (some star) init_ab nothing_found

not_at :
    (c : ℕ) (word : List ℕ)
    → c ≢ 97
    → Member word ab_lines
    → take (length word) (c ∷ 97 ∷ []) ≢ word
not_at c word ne (inl e) here = let there = rw (← e) at here in ne (ap (λ l. get_or l 0 0) there)
not_at c word ne (inr nothing) here = nothing

not_last : (word : List ℕ) → Member word ab_lines → take (length word) (97 ∷ []) ≢ word
not_last word (inl e) here = let there = rw (← e) at here in omega (arith, ap length there)
not_last word (inr nothing) here = nothing

search_sound_example : search ab_tree clean_text (some star) ≡ (clean_text, [])
search_sound_example =
    search_sound ab_lines ab_tree clean_text (some star) init_ab
      (λ word. not_at 120 word (λ e. omega (arith, e)), (not_last, tt))

abbrev chatting : ChatState
chatting = record { service = both; history = []; popular = []; filter = ab_tree; sent = [] }

-- A word that is in the file once is taken out of it.
taken_out_once :
    del_from_file {E = Unit {0}} hi ((1 ∷ []) ∷ hi ∷ (2 ∷ []) ∷ []) ≡ ok ((1 ∷ []) ∷ (2 ∷ []) ∷ [])
unfolding del_from_file del_loop
taken_out_once = refl

-- A word that is in the file twice, one line behind the other, makes the call panic.
twice_panics : del_from_file {E = Unit {0}} hi (hi ∷ hi ∷ []) ≡ panic
unfolding del_from_file del_loop
twice_panics = refl

one_ne_hi : ◌≢◌ {A = List ℕ} (1 ∷ []) hi
one_ne_hi e = omega (arith, ap length e)

two_ne_hi : ◌≢◌ {A = List ℕ} (2 ∷ []) hi
two_ne_hi e = omega (arith, ap length e)

del_from_file_once_example :
    del_from_file {E = Unit {0}} hi ((1 ∷ []) ∷ hi ∷ (2 ∷ []) ∷ []) ≡ ok ((1 ∷ []) ∷ (2 ∷ []) ∷ [])
del_from_file_once_example =
    del_from_file_once hi ((1 ∷ []) ∷ []) ((2 ∷ []) ∷ []) (one_ne_hi, tt) (two_ne_hi, tt)
