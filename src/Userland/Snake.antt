-- ===== src/Userland/Snake.antt =====
-- Userland/SampleCodeModule/snake.c and snake2.c: the snake, its moves, its food and what hits it. The
-- drawing of the snake is left out; coordinates are `uint32_t`.
pub mod Moves
pub mod Plays
pub mod Food
use peps_os.Common.{
  ℕ, zero, suc, ◌+◌, ◌-◌, ◌*◌, ◌/◌, ◌%◌, Bool, true, false, ◌&&◌, ◌||◌, not, Option, none, some,
  List, [], ◌∷◌, ◌++◌, ◌==◌, ltb, leb, if◌then◌else◌, get_or, set, length, u32_mod,
}

-- `enum Movement`.
pub data Movement : Type 0 where
  down up right left : Movement

pub record Point : Type 0 where
  pub x : ℕ
  pub y : ℕ

-- `struct Snake`; `body` is the first `length` points of the array.
pub record Snake : Type 0 where
  pub body : List Point
  pub color : ℕ
  pub mov : Movement

abbrev pub square_size : ℕ
square_size = 20

abbrev pub interface_length : ℕ
interface_length = 100

abbrev pub max_length : ℕ
max_length = 500

abbrev pub snake_default_len : ℕ
snake_default_len = 6

abbrev pub origin : Point
origin = record { x = 0; y = 0 }

-- `moveSnake`: 0 is below, 1 above, 2 right and 3 left.
unfoldable pub move_snake : ℕ → Movement → Movement
move_snake zero up = up
move_snake zero m = down
move_snake (suc zero) down = down
move_snake (suc zero) m = up
move_snake (suc (suc zero)) left = left
move_snake (suc (suc zero)) m = right
move_snake (suc (suc (suc zero))) right = right
move_snake (suc (suc (suc zero))) m = left
move_snake (suc (suc (suc (suc value)))) m = m

-- `head.y += SQUARE_SIZE` and so on, on 32 bits.
unfoldable pub moved_head : Movement → Point → Point
moved_head down p = record p { y = (p.y + square_size) % u32_mod }
moved_head up p = record p { y = (p.y + (u32_mod - square_size)) % u32_mod }
moved_head right p = record p { x = (p.x + square_size) % u32_mod }
moved_head left p = record p { x = (p.x + (u32_mod - square_size)) % u32_mod }

-- The condition of `checkSnakeEatRevamped`.
unfoldable pub is_at_face : Point → Point → Bool
is_at_face head face =
    (leb ((face.x + (u32_mod - square_size)) % u32_mod) head.x
      && leb head.x ((face.x + square_size) % u32_mod))
    && (leb ((face.y + (u32_mod - square_size)) % u32_mod) head.y
        && leb head.y ((face.y + square_size) % u32_mod))

abbrev pub same_point : Point → Point → Bool
same_point p q = (p.x == q.x) && (p.y == q.y)

-- `for (int i = 1; i < snake->length && ...; i++)`, over the points behind the head.
unfoldable pub hits_body : Point → List Point → Bool
hits_body head [] = false
hits_body head (p ∷ ps) = let rest = hits_body head ps in if same_point head p then true else rest

abbrev pub is_outside : Point → ℕ → ℕ → Bool
is_outside head map_width map_height =
    (leb map_width head.x || leb map_height head.y) || ltb head.y interface_length

-- `for (int i = snake->length - 1; i > 0; i--) snake->body[i] = snake->body[i - 1];`, from index `i`.
unfoldable pub shift_from : ℕ → List Point → List Point
shift_from zero body = body
shift_from (suc i) body = shift_from i (set body (suc i) (get_or body i origin))

-- `updateSnake` behind the food: the snake, and the flags of the wall and the snake.
pub record Update : Type 0 where
  pub snake : Snake
  pub flag_wall : Bool
  pub flag_snake : Bool

abbrev pub tail_of : List Point → List Point
tail_of [] = []
tail_of (p ∷ ps) = ps

unfoldable pub advance : Snake → Point → ℕ → ℕ → Bool → Bool → Update
unfolding hits_body shift_from
advance snake head map_width map_height flag_wall flag_snake =
    if is_outside head map_width map_height
    then record { snake = snake; flag_wall = true; flag_snake = flag_snake }
    else (if not flag_snake && hits_body head (tail_of snake.body)
        then record { snake = snake; flag_wall = flag_wall; flag_snake = true }
        else record {
          snake = record snake {
            body = set (shift_from (length snake.body - 1) snake.body) 0 head;
          };
          flag_wall = flag_wall;
          flag_snake = flag_snake;
        })

-- `eat`: the tail twice. The array is not asked whether it is full: `none` is a store behind it.
unfoldable pub eat : Snake → Option Snake
eat snake =
    if ltb (length snake.body) max_length
    then some (record snake {
      body = snake.body ++ get_or snake.body (length snake.body - 1) origin ∷ [];
    })
    else none

unfoldable pub fed : Bool → Snake → Option Snake
unfolding eat
fed true snake = eat snake
fed false snake = some snake

unfoldable pub go_on : Option Snake → Bool → Point → ℕ → ℕ → Bool → Bool → Option (Bool × Update)
unfolding advance
go_on none eaten head map_width map_height flag_wall flag_snake = none
go_on (some snake) eaten head map_width map_height flag_wall flag_snake =
    some (eaten, advance snake head map_width map_height flag_wall flag_snake)

-- `updateSnake`, with `checkSnakeEatRevamped`: in game mode 1 the food is only seen, else it is eaten. A
-- new face is then drawn (`face_tried`), which the update does not look at.
unfoldable pub update_snake : Snake → ℕ → ℕ → Bool → Bool → ℕ → Point → Option (Bool × Update)
unfolding go_on fed moved_head is_at_face
update_snake snake map_width map_height flag_wall flag_snake game_mode face =
    let head = moved_head snake.mov (get_or snake.body 0 origin) in
    let eaten = is_at_face head face in
    go_on (fed (eaten && not (game_mode == 1)) snake) eaten head map_width map_height flag_wall
      flag_snake

-- `gameInput`: W, S, D, A and their small letters.
unfoldable pub game_input : ℕ → Snake → Snake
unfolding move_snake
game_input c snake =
    if (c == 87) || (c == 119)
    then record snake { mov = move_snake 1 snake.mov }
    else (if (c == 83) || (c == 115)
        then record snake { mov = move_snake 0 snake.mov }
        else (if (c == 68) || (c == 100)
            then record snake { mov = move_snake 2 snake.mov }
            else (if (c == 65) || (c == 97)
                then record snake { mov = move_snake 3 snake.mov }
                else snake)))

-- `gameInputTwo`: the letters move the first snake, the arrows (17 to 20) the second.
unfoldable pub game_input_two : ℕ → Snake → Snake → Snake × Snake
unfolding game_input
game_input_two c p1 p2 =
    if c == 17
    then (p1, record p2 { mov = move_snake 1 p2.mov })
    else (if c == 18
        then (p1, record p2 { mov = move_snake 3 p2.mov })
        else (if c == 19
            then (p1, record p2 { mov = move_snake 2 p2.mov })
            else (if c == 20
                then (p1, record p2 { mov = move_snake 0 p2.mov })
                else (game_input c p1, p2))))

-- The points of `initializeSnake` from index `i` on, with `n` to go.
unfoldable pub initial_points : ℕ → ℕ → ℕ → ℕ → List Point
initial_points zero i starting_x starting_y = []
initial_points (suc n) i starting_x starting_y =
    record {
      x = (starting_x + (snake_default_len - 1 - i) * square_size) % u32_mod;
      y = starting_y;
    }
    ∷ initial_points n (suc i) starting_x starting_y

-- `initializeSnake`.
unfoldable pub initialize_snake : ℕ → ℕ → ℕ → Snake
unfolding initial_points
initialize_snake starting_x starting_y snake_color = record {
  body = initial_points snake_default_len 0 starting_x starting_y;
  color = snake_color;
  mov = down;
}

-- `rand_` and `randTwo_`.
unfoldable pub rand : ℕ → ℕ
rand seed = (seed * 1664525 + 1013904223) % u32_mod

-- `getRandom` and `getRandomTwo`: the number, and the seed.
unfoldable pub get_random : ℕ → ℕ → ℕ → ℕ × ℕ
get_random seed low high =
    ((rand seed % ((high + (u32_mod - low) + 1) % u32_mod) + low) % u32_mod, rand seed)

-- `checkSelfCollision` and `checkSelfCollisionTwo`.
unfoldable pub check_self_collision : ℕ → ℕ → List Point → Bool
check_self_collision x y [] = false
check_self_collision x y (p ∷ ps) =
    let rest = check_self_collision x y ps in
    if (ltb x ((p.x + square_size) % u32_mod) && ltb p.x ((x + square_size) % u32_mod))
      && (ltb y ((p.y + square_size) % u32_mod) && ltb p.y ((y + square_size) % u32_mod))
    then true
    else rest

-- One turn of the loop of `drawRandomFace`, on a screen of the given size: the face, whether it is on
-- the snake, and the seed.
unfoldable pub face_tried : ℕ → ℕ → ℕ → List Point → Point × Bool × ℕ
unfolding get_random check_self_collision
face_tried seed width height body =
    let (x, seed') = get_random seed square_size ((width + (u32_mod - square_size)) % u32_mod) in
    let (y, seed'') =
      get_random seed' (square_size + interface_length)
        ((height + (u32_mod - square_size)) % u32_mod) in
    (record { x = x; y = y }, check_self_collision x y body, seed'')
