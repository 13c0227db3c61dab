-- ===== src/Streams/Tests.antt =====
-- Concrete runs of the stream registry, and its theorems at them.
use vidvnc.Base.{
  ℕ, ◌≡◌, ◌≢◌, refl, ap, Text, arith, Bool, true, false, none, some, [], ◌∷◌, codes, length, ok,
  err, dec_text,
}
use vidvnc.Base.Table.{get, set, delete, values}
use vidvnc.Streams.State.{Registry, Source, Stream, Limits, SourceState}
use vidvnc.Streams.Joining.{Admitted, open_registry, subscribe}
use vidvnc.Streams.Leaving.{unsubscribe, mark_ready, close_source, release_source, transition}
use vidvnc.Streams.Plans.{
  from_zero, below_zero, video, Profile, Display, Plan, source_key, plan_pixels, pixel_budget,
}
use vidvnc.Streams.Reach.{subscribes, Reach, opened, stepped}
use vidvnc.Streams.Admission.{new_stream}
use vidvnc.Streams.Weights.{IsWithin}
use vidvnc.Streams.Budget.{Reach-IsWithin}
use vidvnc.Streams.Links.{IsLinked, owner}
use vidvnc.Streams.History.{Reach-IsLinked, close_source_total}
use vidvnc.Streams.Alike.{EncodesAlike, pictures, subscribe-alike}

-- Opens what the runs below compute with.
runs : Unit {0}
unfolding open_registry subscribe unsubscribe mark_ready close_source release_source transition
    source_key plan_pixels get set delete values dec_text
runs = tt

abbrev limits : Limits
limits = record {
  max_streams = 2;
  per_session = 2;
  bitrate_kbps = 7000;
  pixels_per_second = 60000000;
}

abbrev mobile : Profile
mobile = record {
  name = codes "mobile";
  width = some 1280;
  height = some 720;
  fps = some 15;
  bitrate_kbps = some 2000;
  stretch = false;
  bitrate_mode = some (codes "cbr");
  quality = none;
}

abbrev screen : Display
screen = record {
  id = some (codes "1");
  x = some (from_zero 0);
  y = some (from_zero 0);
  width = some 2560;
  height = some 1440;
  rotation = some 0;
}

abbrev plan : Plan
plan = record {
  kind = video;
  format = none;
  profile = some mobile;
  display = screen;
  revision = some 3;
  codec = none;
}

plan_key : source_key plan ≡ codes "video|3|1|0,0,2560,1440,0|1280x720@15|2000|cbr|h264"
unfolding runs
plan_key = refl

-- A display to the left of the main one
abbrev left_plan : Plan
left_plan = record plan { display = record screen { x = some (below_zero 1920) } }

left_key : source_key left_plan ≡ codes "video|3|1|-1920,0,2560,1440,0|1280x720@15|2000|cbr|h264"
unfolding runs
left_key = refl

abbrev first : Stream
first = new_stream (codes "alice") plan (codes "s1") (codes "a1")

abbrev worker : Source
worker = record {
  id = codes "s1";
  kind = video;
  key = codes "video|3|1|0,0,2560,1440,0|1280x720@15|2000|cbr|h264";
  plan = plan;
  pixels = 13824000;
  state = SourceState.starting;
  subscriptions = codes "a1" ∷ [];
}

abbrev empty : Registry
empty = record { limits = limits; sources = []; subscriptions = [] }

abbrev one : Registry
one = record {
  limits = limits;
  sources = (codes "s1", worker) ∷ [];
  subscriptions = (codes "a1", first) ∷ [];
}

opens : open_registry limits ≡ ok empty
unfolding runs
opens = refl

abbrev admitted : Admitted
admitted = record { stream = first; source = worker; created = true }

subscribes_one : subscribe empty (codes "alice") plan (codes "s1") (codes "a1") ≡ ok (one, admitted)
unfolding runs
subscribes_one = refl

new_source_id : get (codes "s1") empty.sources ≡ none
unfolding runs
new_source_id = refl

new_stream_id : get (codes "a1") empty.subscriptions ≡ none
unfolding runs
new_stream_id = refl

reaches_one : Reach limits one
reaches_one = stepped (opened empty opens) (
    subscribes (codes "alice") plan (codes "s1") (codes "a1") one admitted new_source_id
      new_stream_id subscribes_one)

-- A second client with the same plan joins the worker.
abbrev two : Registry
two = record {
  limits = limits;
  sources = (codes "s1", record worker { subscriptions = codes "a1" ∷ codes "b1" ∷ [] }) ∷ [];
  subscriptions =
      (codes "a1", first)
      ∷ (codes "b1", new_stream (codes "bob") plan (codes "s1") (codes "b1"))
      ∷ [];
}

abbrev joined : Admitted
joined = record {
  stream = new_stream (codes "bob") plan (codes "s1") (codes "b1");
  source = record worker { subscriptions = codes "a1" ∷ codes "b1" ∷ [] };
  created = false;
}

subscribes_two : subscribe one (codes "bob") plan (codes "s2") (codes "b1") ≡ ok (two, joined)
unfolding runs
subscribes_two = refl

found_worker : get (codes "s1") one.sources ≡ some worker
unfolding runs
found_worker = refl

worker_key : worker.key ≡ source_key plan
unfolding runs
worker_key = refl

-- A plan for another display is refused when the pixel budget is spent.
abbrev large : Plan
large = record plan {
  profile = some (record mobile { width = some 2560; height = some 1440; fps = some 30 });
}

refuses_large : subscribe one (codes "bob") large (codes "s2") (codes "b1") ≡ err pixel_budget
unfolding runs
refuses_large = refl

Reach-IsWithin_example : IsWithin one
Reach-IsWithin_example = Reach-IsWithin reaches_one

Reach-IsLinked_example : IsLinked one
Reach-IsLinked_example = Reach-IsLinked reaches_one

close_source_total_example :
    (r' : Registry) × (done : Bool) × (close_source one (codes "s1") ≡ some (r', done))
close_source_total_example = close_source_total (codes "s1") reaches_one

not_closing : worker.state ≢ SourceState.closing
not_closing h = cc

-- A profile that only its name and its quality, which is of no account here, tell from the other
abbrev phone : Profile
phone = record mobile { name = codes "phone"; quality = some (codes "high") }

abbrev renamed : Plan
renamed = record plan { profile = some phone; codec = some (codes "h264") }

abbrev shared : Registry
shared = record two {
  subscriptions =
      (codes "a1", first)
      ∷ (codes "b1", new_stream (codes "bob") renamed (codes "s1") (codes "b1"))
      ∷ [];
}

abbrev shares : Admitted
shares = record joined { stream = new_stream (codes "bob") renamed (codes "s1") (codes "b1") }

subscribes_renamed :
    subscribe one (codes "bob") renamed (codes "s2") (codes "b1") ≡ ok (shared, shares)
unfolding runs
subscribes_renamed = refl

abbrev first_symbol : Text → ℕ
first_symbol [] = 0
first_symbol (c ∷ s) = c

not_vbr : codes "cbr" ≢ codes "vbr"
not_vbr h = let c : 99 ≡ 118 = ap first_symbol h in omega (arith, c)

encodes_alike : EncodesAlike phone mobile
encodes_alike = record {
  same_width = refl;
  same_height = refl;
  same_fps = refl;
  same_stretch = refl;
  same_bitrate = refl;
  same_mode = refl;
  same_quality = λ h. absurd (not_vbr h);
}

subscribe-alike_example :
    (owner (codes "b1") shared.subscriptions ≡ some (codes "s1"))
    × (length shared.sources ≡ length one.sources)
subscribe-alike_example =
    subscribe-alike (codes "bob") renamed (codes "s2") (codes "b1") (codes "s1") worker shares
      reaches_one found_worker not_closing
      (pictures phone mobile refl refl refl refl refl refl refl encodes_alike) subscribes_renamed
