-- ===== src/Query/Runs.antt =====
-- Queries at concrete inputs.
use mathlib.Core.List.{Perm}
use search_engines.Base.{
  refl, [], ◌∷◌, none, some, true, false, List, Option, Text, codes, if◌then◌else◌, ◌++◌, ◌≡◌,
  equal, hyphen, arith, zero, suc, ℕ, ltb, ◌>>=◌,
}
use search_engines.Query.Compiler.{
  Builder, compile, create_isr, parse_or, parse_and, and_loop, parse_primary, or_loop,
  make_operands, make_positive, make_children, add_operand,
}
use search_engines.Query.Tokenizer.{is_not_operator, is_space, tokenize, tokenize_from}
use search_engines.Query.Tokens.{QueryToken, QueryTokenType}
use search_engines.Query.TopK
use search_engines.Query.Compiler.Lost.{alternative_lost}
use search_engines.Query.Compiler.Total.{compile_total}
use search_engines.Query.Tokenizer.Hang.{tokenize_total, tokenize_hangs}
use search_engines.Query.TopK.{
  TopKHeap, push_heap, scores_lower, ScoredDocument, replace_root, extract_sorted, heapify_down,
  drain, turn,
}
use search_engines.Query.TopK.Extract.{Falling, extract_sorted-Falling}
use search_engines.Utils.PriorityQueue.{
  higher_at, higher_found, sift_down, best_child, swap_at, put_back, extract_top,
}
use search_engines.Utils.PriorityQueue.Order.{IsPriority, IsHeap}
use search_engines.Query.TopK.Keep.{IsTopK, KeepsBest, push-IsTopK}

abbrev joined : List (List Text) → List Text
joined [] = []
joined (words ∷ nodes) = words ++ joined nodes

-- An index that has one word; a node lists the words below it.
abbrev one_word : Builder
one_word = record {
  Node = List Text;
  create = λ term. if equal term (codes "cat") then some (term ∷ []) else none;
  make_or = joined;
  make_and = joined;
  make_phrase = joined;
  make_container = λ node negs. node;
}

abbrev word_token : Text → QueryToken
word_token text = record { type = QueryTokenType.word; text = text }

abbrev or_token : QueryToken
or_token = record { type = QueryTokenType.or; text = codes "OR" }

-- dog hat OR cat
abbrev lost_query : List QueryToken
lost_query =
    word_token (codes "dog") ∷ word_token (codes "hat") ∷ or_token ∷ word_token (codes "cat") ∷ []

compile_total_example :
    (node : Option (List Text)) × (compile one_word false 5 lost_query ≡ some node)
compile_total_example = compile_total one_word false 5 lost_query (omega arith)

alternative_lost_example : compile one_word true 5 lost_query ≡ some none
unfolding create_isr
alternative_lost_example =
    alternative_lost one_word true 3 (codes "dog") (word_token (codes "hat"))
      (or_token ∷ word_token (codes "cat") ∷ []) refl refl

-- The same words with the alternatives the other way round.
found_query :
    compile one_word true 6 (
      word_token (codes "cat")
      ∷ or_token
      ∷ word_token (codes "dog")
      ∷ word_token (codes "hat")
      ∷ [])
    ≡ some (some (codes "cat" ∷ []))
unfolding compile parse_or parse_and and_loop parse_primary or_loop make_operands make_positive
    make_children create_isr add_operand
found_query = refl

tokenize_total_example : (tokens : List QueryToken) × (tokenize 10 (codes "a-b | c") ≡ some tokens)
unfolding is_space
tokenize_total_example = tokenize_total 10 (codes "a-b | c") (ground arith) (omega arith)

-- The query `a-`, from the hyphen on.
tokenize_hangs_example : tokenize_from 1000 (some 97) (hyphen ∷ []) ≡ none
unfolding is_not_operator is_space
tokenize_hangs_example = tokenize_hangs 1000 97 [] refl refl

ltb-IsPriority : IsPriority (scores_lower ltb)
unfolding scores_lower
ltb-IsPriority = record {
  asymmetric = λ a b h. ground arith;
  transitive = λ a b c h k. ground arith;
}

abbrev scored : ℕ → ℕ → ScoredDocument ltb
scored doc_id score = record { doc_id = doc_id; score = score }

abbrev two_best : TopKHeap ltb
two_best = record { heap = scored 1 4 ∷ scored 2 6 ∷ []; k = 2 }

two_best-IsHeap : IsHeap (scores_lower ltb) two_best.heap
unfolding higher_at higher_found scores_lower
two_best-IsHeap zero h = absurd (omega arith)
two_best-IsHeap (suc zero) h = refl
two_best-IsHeap (suc (suc i)) h = refl

push-IsTopK_example :
    (top_k' : TopKHeap ltb) × (TopK.push ltb (scored 3 5) two_best ≡ some top_k')
    × IsTopK ltb ltb-IsPriority top_k'
    × (top_k'.k ≡ 2)
    × KeepsBest ltb ltb-IsPriority 2 (scored 3 5) two_best.heap top_k'.heap
push-IsTopK_example =
    push-IsTopK ltb ltb-IsPriority (scored 3 5) two_best (two_best-IsHeap, omega arith)
      (omega arith)

extract_sorted-Falling_example :
    Falling ltb ltb-IsPriority (extract_sorted ltb two_best)
    × Perm (extract_sorted ltb two_best) two_best.heap
extract_sorted-Falling_example = extract_sorted-Falling ltb ltb-IsPriority two_best two_best-IsHeap

-- The document with the lowest score makes room.
best_first :
    (TopK.push ltb (scored 3 5) two_best >>= λ top_k. some (extract_sorted ltb top_k))
    ≡ some (scored 2 6 ∷ scored 3 5 ∷ [])
unfolding TopK.push push_heap replace_root heapify_down sift_down best_child higher_at higher_found
    swap_at put_back scores_lower extract_sorted drain turn extract_top
best_first = refl
