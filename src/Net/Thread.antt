-- ===== src/Net/Thread.antt =====
-- mymuduo/net/Thread.h and Thread.cpp, and utils/CurrentThread.h and .cpp: the name and the state of
-- a thread, and the cached number of the thread that runs.
use simple_http_server.Common.{
  ℕ, ◌+◌, ◌≡◌, ◌≢◌, refl, arith, Bool, true, false, not, ◌&&◌, [], ◌∷◌, ◌++◌, ◌==◌, if◌then◌else◌,
  take,
}
use simple_http_server.Common.Bytes.{Bytes, codes}
use simple_http_server.Common.Decimal.{decimal}

pub record Thread : Type 0 where
  pub started : Bool
  pub joined : Bool
  pub name : Bytes

-- `snprintf` into 32 bytes keeps 31 of them.
unfoldable pub default_name : ℕ → Bytes → Bytes
unfolding decimal
default_name num [] = take 31 (codes "Thread" ++ decimal num)
default_name num (c ∷ name) = c ∷ name

-- Returns also the count of threads behind it.
unfoldable pub new_thread : Bytes → ℕ → Thread × ℕ
unfolding default_name
new_thread name created = (
  record { started = false; joined = false; name = default_name (created + 1) name },
  created + 1,
)

-- Returns once the new thread has its number.
unfoldable pub start : Thread → Thread
start t = record t { started = true }

-- Blocks until the thread has ended.
unfoldable pub join : Thread → Thread
join t = record t { joined = true }

-- Whether the destructor detaches the thread.
unfoldable pub detaches : Thread → Bool
detaches t = t.started && not t.joined

-- Every thread has a name, the one that it is given or one of its own.
pub default_name_lem : (num : ℕ) (name : Bytes) → default_name num name ≢ []
unfolding default_name
default_name_lem num [] e = cc
default_name_lem num (c ∷ name) e = cc

-- `t_cachedTid` of the thread that runs, whose number the system gives as `gettid`, never 0.
unfoldable pub cache_tid : ℕ → ℕ → ℕ
cache_tid gettid cached = if cached == 0 then gettid else cached

-- Returns also what is cached behind it.
unfoldable pub tid : ℕ → ℕ → ℕ × ℕ
unfolding cache_tid
tid gettid cached =
    let cached1 = if cached == 0 then cache_tid gettid cached else cached in (cached1, cached1)

-- The first call, with nothing cached, and every later one give the number of the thread.
pub tid-tid :
    (gettid : ℕ) → ((tid gettid 0).0 ≡ gettid) × ((tid gettid (tid gettid 0).1).0 ≡ gettid)
unfolding tid cache_tid
tid-tid gettid = (refl, ground arith)
