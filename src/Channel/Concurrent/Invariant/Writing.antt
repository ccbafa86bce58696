-- ===== src/Channel/Concurrent/Invariant/Writing.antt =====
-- A step of Write (channel.go) keeps the invariant.
use zwing.Base.{ℕ, ◌≡◌, refl, subst, ap, ◌∙◌, true, false}
use zwing.Platform.{Platform}
use zwing.Channel.{Conn}
use zwing.Channel.Concurrent.{
  ReadAt, WriteAt, away, head, tested, loaded, done, writes_now, Shared, WriteMove, lock, finish,
  exhaust, test, seal, load, store, send, unlock,
}
use zwing.Channel.Concurrent.Guarded.{update, lock-IsGuarded, unlock-IsGuarded}
use zwing.Channel.Concurrent.Invariant.{FitsWrite, Inv}
use zwing.Channel.Concurrent.Invariant.Rounds.{
  Fits, idle-FitsWrite, moved, within, after_seal, after_store,
}
use zwing.Channel.Concurrent.Invariant.Returns.{end_round, end_exhausted}

module _ (P : Platform) (c : Conn P) (m : Shared P) (readers : ℕ → ReadAt) (writers : ℕ → WriteAt P)
    (inv : Inv P c m readers writers) (i : ℕ) where
  pub WriteMove-Inv :
      (p p' : WriteAt P) (m' : Shared P)
      → writers i ≡ p
      → WriteMove P m p m' p'
      → Inv P c m' readers (update writers i p')
  unfolding FitsWrite
  WriteMove-Inv p p' m' at (lock b free) = moved P c m readers writers inv i true (head 0 b) (
      lock-IsGuarded (writes_now P) _ _ _ _ writers i (head 0 b)
        (idle-FitsWrite P c m readers writers inv i _ _ _ _) (inv.writing.resting free) inv.writing
        free refl)
  WriteMove-Inv p p' m' at (finish ended) =
      within P c m readers writers inv i (done _) (ap (writes_now P) at) refl
        (subst (Fits P c m readers writers inv i) at (inv.writing.fitting i))
  WriteMove-Inv p p' m' at (exhaust {written} {rest} w more full) =
      end_exhausted P c m readers writers inv i written rest w (ap (writes_now P) at) more full
        (subst (Fits P c m readers writers inv i) at (inv.writing.fitting i))
  WriteMove-Inv p p' m' at (test {written} {rest} more room) =
      let fits = subst (Fits P c m readers writers inv i) at (inv.writing.fitting i) in
      within P c m readers writers inv i (tested written rest) (ap (writes_now P) at) refl
        (fits, record { some_bytes = more; room = λ e. room (fits.level ∙ e) })
  WriteMove-Inv p p' m' at (seal {written} {rest}) =
      after_seal P c m readers writers inv i written rest (ap (writes_now P) at)
        (subst (Fits P c m readers writers inv i) at (inv.writing.fitting i))
  WriteMove-Inv p p' m' at (load {written} {rest} {cipher}) =
      let (level, next, round, text) =
        subst (Fits P c m readers writers inv i) at (inv.writing.fitting i) in
      within P c m readers writers inv i (loaded written rest cipher m.conn.write_seq)
        (ap (writes_now P) at) refl (level, next, round, text, refl)
  WriteMove-Inv p p' m' at (store {written} {rest} {cipher} {seq}) =
      after_store P c m readers writers inv i written rest cipher seq (ap (writes_now P) at)
        (subst (Fits P c m readers writers inv i) at (inv.writing.fitting i))
  WriteMove-Inv p p' m' at (send {written} {rest} {cipher} w) =
      end_round P c m readers writers inv i written rest cipher w (ap (writes_now P) at)
        (subst (Fits P c m readers writers inv i) at (inv.writing.fitting i))
  WriteMove-Inv p p' m' at unlock = moved P c m readers writers inv i false away (
      unlock-IsGuarded (writes_now P) _ _ _ _ writers i away
        (idle-FitsWrite P c m readers writers inv i _ _ _ _) tt inv.writing (ap (writes_now P) at)
        refl (subst (Fits P c m readers writers inv i) at (inv.writing.fitting i)))
