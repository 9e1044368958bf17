-- ===== src/I18n/Ru.antt =====
-- The bundle of web/src/i18n/ru.ts.
use pier_s3_gateway.Prelude.{[], ◌∷◌}
use pier_s3_gateway.I18n.{Bundle}

unfoldable pub bundle : Bundle
bundle =
    (
      "common",
      ("appName", "Pier S3")
          ∷ ("nativeName", "Русский")
          ∷ ("size", "Размер")
          ∷ ("name", "Имя")
          ∷ ("lastModified", "Изменён")
          ∷ ("actions", "Действия")
          ∷ ("cancel", "Отмена")
          ∷ ("delete", "Удалить")
          ∷ ("download", "Скачать")
          ∷ ("info", "Метаданные")
          ∷ ("retry", "Повторить")
          ∷ ("loadMore", "Загрузить ещё")
          ∷ ("search", "Поиск по имени...")
          ∷ ("empty", "Здесь пока ничего нет")
          ∷ ("downloadFile", "Скачать {{name}}")
          ∷ ("moreActions", "Другие действия для {{name}}")
          ∷ ("openFolder", "Открыть папку {{name}}")
          ∷ ("showInfo", "Показать сведения о {{name}}")
          ∷ ("objects", "{{count}} объектов")
          ∷ ("objects_one", "{{count}} объект")
          ∷ ("objects_few", "{{count}} объекта")
          ∷ ("objects_many", "{{count}} объектов")
          ∷ ("dash", "-")
          ∷ ("language", "Язык")
          ∷ [],
    )
    ∷ (
      "nav",
      ("buckets", "Бакеты")
          ∷ ("allBuckets", "Все бакеты")
          ∷ ("menu", "Открыть меню")
          ∷ ("resize", "Изменить ширину боковой панели")
          ∷ [],
    )
    ∷ (
      "theme",
      ("label", "Тема") ∷ ("system", "Системная") ∷ ("light", "Светлая") ∷ ("dark", "Тёмная") ∷ [],
    )
    ∷ (
      "auth",
      ("title", "Pier S3")
          ∷ ("subtitle", "Войдите для доступа к хранилищу.")
          ∷ ("signIn", "Войти через Keycloak")
          ∷ ("logout", "Выйти")
          ∷ [],
    )
    ∷ (
      "buckets",
      ("title", "Доступные бакеты")
          ∷ ("readWrite", "R/W")
          ∷ ("read", "R")
          ∷ ("writeOnly", "W")
          ∷ ("access", "Доступ")
          ∷ ("quotaUsage", "Занято {{used}} из {{quota}}")
          ∷ [],
    )
    ∷ (
      "browser",
      ("upload", "Загрузить")
          ∷ ("dropHint", "Перетащите файлы или нажмите для выбора")
          ∷ ("dropSubHint", "Файлы будут загружены в текущую папку")
          ∷ ("deleteTitle", "Подтверждение удаления")
          ∷ ("deleteConfirm", "Удалить файл «{{name}}»?")
          ∷ (
            "searchTruncated",
            "Поиск охватывает только загруженные объекты. Нажмите «Загрузить ещё», чтобы расширить выборку.",
          )
          ∷ ("emptyTitle", "Эта папка пуста")
          ∷ ("emptyHint", "Загрузите файлы, чтобы начать")
          ∷ ("writeOnlyTitle", "Бакет только для загрузки")
          ∷ (
            "writeOnlyHint",
            "Сюда можно загружать файлы, но просмотр и скачивание недоступны для вашего уровня доступа.",
          )
          ∷ [],
    )
    ∷ (
      "meta",
      ("title", "Метаданные объекта")
          ∷ ("key", "Ключ")
          ∷ ("contentType", "Content-Type")
          ∷ ("size", "Размер")
          ∷ ("etag", "ETag")
          ∷ ("lastModified", "Последнее изменение")
          ∷ [],
    )
    ∷ (
      "preview",
      ("title", "Просмотр")
          ∷ ("open", "Просмотр {{name}}")
          ∷ ("unsupported", "Просмотр недоступен для этого типа файла")
          ∷ ("tooLarge", "Файл слишком большой для просмотра")
          ∷ ("downloadToView", "Скачайте, чтобы открыть")
          ∷ ("failed", "Не удалось загрузить просмотр")
          ∷ ("modeRendered", "Рендер")
          ∷ ("modeSource", "Исходник")
          ∷ ("modeTable", "Таблица")
          ∷ ("modeFormatted", "Форматированный")
          ∷ ("tableTruncated", "Большой файл: таблица в просмотре обрезана")
          ∷ [],
    )
    ∷ ("messages", ("uploaded", "{{name}} загружен") ∷ ("deleted", "Файл удалён") ∷ [])
    ∷ (
      "errors",
      ("generic", "Ошибка")
          ∷ ("loadBuckets", "Не удалось загрузить бакеты")
          ∷ ("loadObjects", "Не удалось загрузить объекты")
          ∷ ("loadMore", "Не удалось загрузить ещё")
          ∷ ("loadMeta", "Не удалось загрузить метаданные")
          ∷ ("deleteFailed", "Ошибка удаления")
          ∷ ("downloadFailed", "Ошибка скачивания")
          ∷ ("uploadFailed", "Ошибка загрузки {{name}}")
          ∷ ("forbidden", "Нет прав на эту операцию")
          ∷ [],
    )
    ∷ []
